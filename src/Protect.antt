-- ===== src/Protect.antt =====
-- Record protection, lib/picotls.c: `build_aad`, `aead_encrypt`, `aead_decrypt`,
-- `buffer_push_encrypted_records` and the removal of padding in `handle_input`.
-- The AEAD itself is outside the repository (OpenSSL, cifra, micro-ecc): an argument `Aead`, with
-- the laws that the code relies on in `AeadLaws`. A send buffer is the list of its bytes.
pub mod Sizes
pub mod RoundTrip
use picotls.Prelude.{
  ℕ, zero, suc, ◌+◌, ◌-◌, ◌/◌, ◌%◌, ◌^◌, ◌≤◌, ◌≡◌, Option, none, some, List, [], ◌∷◌, ◌++◌, ◌==◌,
  if◌then◌else◌, length, take, drop, All, Result, ok, err,
}
use picotls.Code.{alert_bad_record_mac}
use picotls.Wire.{IsByte, bytes, push_block}
use picotls.Record.{max_plaintext_record_size, content_type_appdata}

-- `ptls_aead_context_t`, keyed by `Ctx`. `seal` is encrypt_init, encrypt_update on the parts of the
-- plaintext, and encrypt_final; `unseal` is do_decrypt, with `none` for SIZE_MAX. Both take the
-- sequence number, the additional data and the text.
pub record Aead (Ctx : Type 0) : Type 0 where
  pub tag_size : ℕ
  pub seal : Ctx → ℕ → List ℕ → List ℕ → List ℕ
  pub unseal : Ctx → ℕ → List ℕ → List ℕ → Option (List ℕ)

pub record AeadLaws {Ctx : Type 0} (a : Aead Ctx) : Type 0 where
  pub unseal-seal :
      (k : Ctx) (seq : ℕ) (aad text : List ℕ)
      → All IsByte text
      → a.unseal k seq aad (a.seal k seq aad text) ≡ some text
  pub length-seal :
      (k : Ctx) (seq : ℕ) (aad text : List ℕ)
      → length (a.seal k seq aad text) ≡ length text + a.tag_size
  -- `tag_size` of every AEAD algorithm is 16; the record limit leaves room for 255.
  pub tag_fits : a.tag_size ≤ 255

-- `struct st_ptls_traffic_protection_t`; `aead` is `none` while the pointer is NULL.
pub record Protection (Ctx : Type 0) : Type 0 where
  pub secret : List ℕ
  pub epoch : ℕ
  pub aead : Option Ctx
  pub seq : ℕ

abbrev pub record_version_major : ℕ
record_version_major = 3

abbrev pub record_version_minor : ℕ
record_version_minor = 3

unfoldable pub build_aad : ℕ → List ℕ
build_aad reclen =
    content_type_appdata
    ∷ record_version_major
    ∷ record_version_minor
    ∷ (reclen / 256 % 256)
    ∷ (reclen % 256)
    ∷ []

-- `ctx->seq++` of a uint64_t
unfoldable pub next_seq : ℕ → ℕ
next_seq seq = (seq + 1) % 2 ^ 64

-- The `buffer_push_record` macro.
unfoldable pub push_record : ℕ → List ℕ → List ℕ
push_record type block =
    type ∷ record_version_major ∷ record_version_minor ∷ push_block (bytes 2) block

-- "skip padding", and the type byte in front of it: `none` if the plaintext is all zeroes.
unfoldable pub inner_plaintext : List ℕ → Option (ℕ × List ℕ)
inner_plaintext [] = none
inner_plaintext (b ∷ text) = elim (inner_plaintext text) [
  | some (type, front) ↦ some (type, b ∷ front)
  | none ↦ if b == 0 then none else some (b, [])
]

module _ {Ctx : Type 0} (a : Aead Ctx) where
  -- `k` is `ctx->aead`, which is not NULL here, and `seq` is `ctx->seq`. The output, and `ctx->seq`
  -- after the call.
  unfoldable pub aead_encrypt : Ctx → ℕ → List ℕ → ℕ → List ℕ × ℕ
  unfolding build_aad next_seq
  aead_encrypt k seq input content_type = (
    a.seal k seq (build_aad (length input + 1 + a.tag_size)) (input ++ content_type ∷ []),
    next_seq seq,
  )

  -- The plaintext, and `ctx->seq` after the call; a failure leaves `ctx->seq` as it was.
  unfoldable pub aead_decrypt : Ctx → ℕ → List ℕ → Result (List ℕ × ℕ)
  unfolding build_aad next_seq
  aead_decrypt k seq input = elim (a.unseal k seq (build_aad (length input)) input) [
    | none ↦ err alert_bad_record_mac
    | some text ↦ ok (text, next_seq seq)
  ]

  -- The bytes appended to the buffer, and the new sequence number. A round takes a byte at least.
  unfoldable pub push_encrypted_rounds : ℕ → Ctx → ℕ → ℕ → List ℕ → List ℕ × ℕ
  unfolding aead_encrypt push_record
  push_encrypted_rounds zero k seq type src = ([], seq)
  push_encrypted_rounds (suc rounds) k seq type src =
      let sealed = aead_encrypt k seq (take max_plaintext_record_size src) type in
      let (later, seq') =
        push_encrypted_rounds rounds k sealed.1 type (drop max_plaintext_record_size src) in
      if length src == 0
      then ([], seq)
      else (push_record content_type_appdata sealed.0 ++ later, seq')

  unfoldable pub buffer_push_encrypted_records : Ctx → ℕ → ℕ → List ℕ → List ℕ × ℕ
  unfolding push_encrypted_rounds
  buffer_push_encrypted_records k seq type src = push_encrypted_rounds (length src) k seq type src

  -- The bytes that a record costs over its payload: 5 of header, 1 of type, and the tag.
  unfoldable pub get_record_overhead : ℕ
  get_record_overhead = 6 + a.tag_size
