-- ===== src/Protect/RoundTrip.antt =====
-- A receiver that cuts the sealed stream into records, opens each with the next sequence number and
-- strips the padding, as `parse_record` and `handle_input` do, gets the data back.
use picotls.Prelude.{
  ℕ, zero, suc, ◌+◌, ◌/◌, ◌%◌, ◌≤◌, ◌<◌, ◌≡◌, refl, ap, ◌∙◌, ◌≢◌, Bool, Option, none, some, List,
  [], ◌∷◌, ◌++◌, arith, ◌==◌, if◌then◌else◌, le→ltb, le→leb, ==_self, length, take, drop, All,
  length-append, take-append-drop, length-take, length-drop, take-append_length, drop-append_length,
  All-append, ◌>>=◌, All-take, All-drop, Result, ok, err,
}
use picotls.Code.{error_in_progress, alert_unexpected_message}
use picotls.Wire.{IsByte, push_block, ntoh16}
use picotls.Wire.Integers.{ntoh16-eq}
use picotls.Record.{
  Parsed, max_plaintext_record_size, max_encrypted_record_size, content_type_appdata, parse_record,
  header_fields,
}
use picotls.Protect.{
  Aead, AeadLaws, build_aad, push_record, next_seq, aead_encrypt, aead_decrypt, inner_plaintext,
  push_encrypted_rounds, buffer_push_encrypted_records,
}
use picotls.Protect.Sizes.{one_round, length-push_record, length-aead_encrypt}

-- The inner type is the last byte that is not zero.
pub inner_plaintext-append :
    (text : List ℕ) (type : ℕ) → type ≢ 0 → inner_plaintext (text ++ type ∷ []) ≡ some (type, text)
unfolding inner_plaintext
inner_plaintext-append [] type h = ground arith
inner_plaintext-append (b ∷ text) type h = rw (inner_plaintext-append text type h)

-- Opening what was sealed with the same key and sequence number.
pub aead_decrypt-aead_encrypt :
    {Ctx : Type 0} (a : Aead Ctx) (laws : AeadLaws a) (k : Ctx) (seq : ℕ) (input : List ℕ)
    (type : ℕ)
    → All IsByte (input ++ type ∷ [])
    → aead_decrypt a k seq (aead_encrypt a k seq input type).0
      ≡ ok (input ++ type ∷ [], next_seq seq)
unfolding aead_decrypt
aead_decrypt-aead_encrypt a laws k seq input type hb =
    rw (length-aead_encrypt a laws k seq input type, aead_decrypt)
      (unfold aead_encrypt in
        rw
          (laws.unseal-seal k seq (build_aad (length input + 1 + a.tag_size)) (input ++ type ∷ [])
            hb)
          refl)

-- A record as `parse_record` sees it, on the fast path, in front of any other bytes.
pub parse_pushed :
    (grow : ℕ → ℕ → Bool) (block rest : List ℕ)
    → length block ≤ max_encrypted_record_size
    → parse_record grow none (push_record content_type_appdata block ++ rest) ≡ record {
      rec = record {
        type = content_type_appdata;
        version = 0x0303;
        length = length block;
        fragment = some block;
      };
      ret = 0;
      recvbuf = none;
      consumed = length block + 5;
    }
unfolding parse_record push_record push_block header_fields ntoh16
parse_pushed grow block rest h =
    let size : ntoh16 (length block / 256 % 256) (length block / 1 % 256) ≡ length block =
      omega (arith, ntoh16-eq (length block / 256 % 256) (length block / 1 % 256)) in
    let total : ℕ = suc (suc (suc (suc (suc (length (block ++ rest)))))) in
    rw (size, le→ltb total 5 (omega arith), le→ltb max_encrypted_record_size (length block) h)
      (rw
        (
          le→leb (5 + length block) total (omega (arith, length-append block rest)),
          take-append_length block rest,
        )
        refl)

take_inner : ℕ → List ℕ → Result (List ℕ)
take_inner type text = elim (inner_plaintext text) [
  | none ↦ err alert_unexpected_message
  | some (inner, front) ↦ if inner == type then ok front else err alert_unexpected_message
]

take_inner-append :
    (text : List ℕ) (type : ℕ) → type ≢ 0 → take_inner type (text ++ type ∷ []) ≡ ok text
unfolding take_inner
take_inner-append text type h =
    rw (inner_plaintext-append text type h, take_inner) (rw (==_self type) refl)

pub drop_pushed :
    (block rest : List ℕ)
    → drop (length block + 5) (push_record content_type_appdata block ++ rest) ≡ rest
drop_pushed block rest =
    rw (← length-push_record content_type_appdata block)
      (drop-append_length (push_record content_type_appdata block) rest)

module _ {Ctx : Type 0} (a : Aead Ctx) (grow : ℕ → ℕ → Bool) (k : Ctx) where
  -- What one record holds: its bytes opened, the padding and the type taken off.
  open_record : ℕ → ℕ → Option (List ℕ) → Result (List ℕ × ℕ)
  open_record seq type none = err error_in_progress
  open_record seq type (some fragment) = do
    (text, seq') ← aead_decrypt a k seq fragment
    front ← take_inner type text
    ok (front, seq')

  -- The receiver; the fuel is the number of records that it will take.
  pub receive : ℕ → ℕ → ℕ → List ℕ → Result (List ℕ × ℕ)
  receive records seq type [] = ok ([], seq)
  receive zero seq type (b ∷ stream) = err error_in_progress
  receive (suc records) seq type (b ∷ stream) =
      let p : Parsed = parse_record grow none (b ∷ stream) in
      do
        (front, seq1) ← open_record seq type p.rec.fragment
        (later, seq2) ← receive records seq1 type (drop p.consumed (b ∷ stream))
        ok (front ++ later, seq2)

  open_sealed :
      (laws : AeadLaws a) (seq type : ℕ) (input : List ℕ)
      → type ≢ 0
      → All IsByte (input ++ type ∷ [])
      → open_record seq type (some (aead_encrypt a k seq input type).0) ≡ ok (input, next_seq seq)
  unfolding open_record
  open_sealed laws seq type input h hb =
      rw (aead_decrypt-aead_encrypt a laws k seq input type hb, take_inner-append input type h) refl

  receive_parsed :
      (records seq type : ℕ) (stream : List ℕ) (p : Parsed)
      → 0 < length stream
      → parse_record grow none stream ≡ p
      → receive (suc records) seq type stream ≡ (do
        (front, seq1) ← open_record seq type p.rec.fragment
        (later, seq2) ← receive records seq1 type (drop p.consumed stream)
        ok (front ++ later, seq2))
  unfolding receive
  receive_parsed records seq type [] p h e = absurd (omega arith)
  receive_parsed records seq type (b ∷ stream) p h e = rw e refl

  -- One sealed chunk in front of a stream that is received.
  receive_chunk :
      (laws : AeadLaws a) (records seq type last : ℕ) (chunk rest later : List ℕ)
      → type ≢ 0
      → All IsByte (chunk ++ type ∷ [])
      → length chunk ≤ max_plaintext_record_size
      → receive records (next_seq seq) type rest ≡ ok (later, last)
      → receive
          (suc records)
          seq
          type
          (push_record content_type_appdata (aead_encrypt a k seq chunk type).0 ++ rest)
        ≡ ok (chunk ++ later, last)
  receive_chunk laws records seq type last chunk rest later h hb le e =
      let block : List ℕ = (aead_encrypt a k seq chunk type).0 in
      let size : length block ≤ max_encrypted_record_size =
        omega (arith, length-aead_encrypt a laws k seq chunk type, laws.tag_fits) in
      receive_parsed records seq type (push_record content_type_appdata block ++ rest)
        (record {
          rec = record {
            type = content_type_appdata;
            version = 0x0303;
            length = length block;
            fragment = some block;
          };
          ret = 0;
          recvbuf = none;
          consumed = length block + 5;
        })
        (omega (
          arith,
          length-append (push_record content_type_appdata block) rest,
          length-push_record content_type_appdata block,
        ))
        (parse_pushed grow block rest size)
      ∙ rw (open_sealed laws seq type chunk h hb, drop_pushed block rest, e) refl

  receive_rounds :
      (laws : AeadLaws a) (rounds seq type : ℕ) (src : List ℕ)
      → type ≢ 0
      → IsByte type
      → All IsByte src
      → length src ≤ rounds
      → receive rounds seq type (push_encrypted_rounds a rounds k seq type src).0
        ≡ ok (src, (push_encrypted_rounds a rounds k seq type src).1)
  receive_rounds laws zero seq type [] h ht hs le = unfold push_encrypted_rounds receive in refl
  receive_rounds laws zero seq type (b ∷ src) h ht hs le = absurd (omega arith)
  receive_rounds laws (suc rounds) seq type [] h ht hs le =
      unfold push_encrypted_rounds receive in refl
  receive_rounds laws (suc rounds) seq type (b ∷ src) h ht hs le =
      let all : List ℕ = b ∷ src in
      let left : List ℕ = drop max_plaintext_record_size all in
      let later =
        receive_rounds laws rounds (next_seq seq) type left h ht
          (All-drop IsByte max_plaintext_record_size all hs)
          (omega (arith, length-drop max_plaintext_record_size all)) in
      rw (one_round a k rounds seq type all (omega arith)) (
        receive_chunk laws rounds seq type _ (take max_plaintext_record_size all) _ left h
          (All-append IsByte (take max_plaintext_record_size all) (type ∷ [])
            (All-take IsByte max_plaintext_record_size all hs) (ht, tt))
          (omega (arith, length-take max_plaintext_record_size all)) later
        ∙ ap (λ t. ok (t, (push_encrypted_rounds a rounds k (next_seq seq) type left).1))
            (take-append-drop max_plaintext_record_size all))

  -- What `buffer_push_encrypted_records` appends is, to a receiver with the same key and sequence
  -- number, a run of records that opens to exactly the data, and leaves both sides at one sequence
  -- number. The data and the inner type are bytes, the type is not 0, and the AEAD opens what it seals.
  pub receive-buffer_push_encrypted_records :
      (laws : AeadLaws a) (seq type : ℕ) (src : List ℕ)
      → type ≢ 0
      → IsByte type
      → All IsByte src
      → receive (length src) seq type (buffer_push_encrypted_records a k seq type src).0
        ≡ ok (src, (buffer_push_encrypted_records a k seq type src).1)
  unfolding buffer_push_encrypted_records
  receive-buffer_push_encrypted_records laws seq type src h ht hs =
      receive_rounds laws (length src) seq type src h ht hs (omega arith)
