-- ===== src/Send/Encrypt.antt =====
-- The in-place encryption of one record does what the general path does.
use picotls.Prelude.{
  ℕ, zero, suc, ◌+◌, ◌/◌, ◌%◌, ◌≤◌, ◌<◌, ◌≡◌, refl, ap, ◌∙◌, inl, inr, List, [], ◌∷◌, ◌++◌,
  append-nil, arith, leb, leb→le, Bool-cases, length, take-append_length, get_or-append_right,
  drop-append_right, take_whole, drop_whole,
}
use picotls.Record.{max_plaintext_record_size, content_type_appdata}
use picotls.Protect.{
  Aead, push_record, next_seq, aead_encrypt, buffer_push_encrypted_records, push_encrypted_rounds,
}
use picotls.Protect.Sizes.{one_round}
use picotls.Wire.{push_block, block_prefix, low_bytes}
use picotls.Send.{buffer_encrypt_record}

no_rounds :
    {Ctx : Type 0} (a : Aead Ctx) (k : Ctx) (rounds seq type : ℕ)
    → push_encrypted_rounds a rounds k seq type [] ≡ ([], seq)
unfolding push_encrypted_rounds
no_rounds a k zero seq type = refl
no_rounds a k (suc rounds) seq type = refl

-- One round is all that input for one record takes.
last_round :
    {Ctx : Type 0} (a : Aead Ctx) (k : Ctx) (rounds seq type : ℕ) (body : List ℕ)
    → 0 < length body
    → length body ≤ max_plaintext_record_size
    → push_encrypted_rounds a (suc rounds) k seq type body
      ≡ (push_record content_type_appdata (aead_encrypt a k seq body type).0, next_seq seq)
last_round a k rounds seq type body h le =
    one_round a k rounds seq type body h
    ∙ rw
        (
          take_whole max_plaintext_record_size body le,
          drop_whole max_plaintext_record_size body le,
          no_rounds a k rounds (next_seq seq) type,
          append-nil,
        )
        refl

one_record :
    {Ctx : Type 0} (a : Aead Ctx) (k : Ctx) (seq type : ℕ) (body : List ℕ)
    → 0 < length body
    → length body ≤ max_plaintext_record_size
    → buffer_push_encrypted_records a k seq type body
      ≡ (push_record content_type_appdata (aead_encrypt a k seq body type).0, next_seq seq)
one_record a k seq type [] h le = absurd (omega arith)
one_record a k seq type (b ∷ body) h le =
    unfold buffer_push_encrypted_records in last_round a k (length body) seq type (b ∷ body) h le

header_bytes :
    (block : List ℕ)
    → push_record content_type_appdata block
      ≡ 23 ∷ 3 ∷ 3 ∷ (length block / 256 % 256) ∷ (length block % 256) ∷ block
unfolding push_record push_block block_prefix low_bytes
header_bytes block =
    ap (λ (n : ℕ). 23 ∷ 3 ∷ 3 ∷ (length block / 256 % 256) ∷ (n % 256) ∷ block) (omega arith)

-- A record at the end of the send buffer, as `begin_record_message` and what follows it leave it
-- there, is encrypted in place, or moved out and split, with the same result: the bytes before it
-- are kept, its body is replaced by just what `buffer_push_encrypted_records` makes of it, and the
-- sequence number ends the same. The record has a body.
pub buffer_encrypt_record-buffer_push_encrypted_records :
    {Ctx : Type 0} (a : Aead Ctx) (k : Ctx) (seq : ℕ) (front : List ℕ) (type x y : ℕ)
    (body : List ℕ)
    → 0 < length body
    → buffer_encrypt_record a k seq (length front) (front ++ type ∷ 3 ∷ 3 ∷ x ∷ y ∷ body) ≡ (
      front ++ (buffer_push_encrypted_records a k seq type body).0,
      (buffer_push_encrypted_records a k seq type body).1,
    )
unfolding buffer_encrypt_record
buffer_encrypt_record-buffer_push_encrypted_records a k seq front type x y body h =
    let rest : List ℕ = type ∷ 3 ∷ 3 ∷ x ∷ y ∷ body in
    rw
      (
        drop-append_right front rest (length front + 5) 5 refl,
        get_or-append_right front rest (length front) 0 0 (omega arith),
        get_or-append_right front rest (length front + 1) 1 0 refl,
        get_or-append_right front rest (length front + 2) 2 0 refl,
        take-append_length front rest,
      )
      (elim (Bool-cases (leb (length body) max_plaintext_record_size)) [
        | inl e ↦
            rw
              (e, one_record a k seq type body h (leb→le (length body) max_plaintext_record_size e))
              (rw (header_bytes (aead_encrypt a k seq body type).0) (unfold aead_encrypt in refl))
        | inr e ↦ rw e refl
      ])
