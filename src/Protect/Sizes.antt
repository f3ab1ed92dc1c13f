-- ===== src/Protect/Sizes.antt =====
-- How many records protected data takes, and how long each is.
use picotls.Prelude.{
  ℕ, zero, suc, ◌+◌, ◌-◌, ◌*◌, ◌/◌, ◌≤◌, ◌<◌, min, ◌≡◌, refl, ap, ◌∙◌, false, List, [], ◌∷◌, ◌++◌,
  arith, ◌==◌, length, take, drop, length-append, length-take, length-drop,
}
use picotls.Wire.{bytes, push_block, block_prefix}
use picotls.Wire.Integers.{length-low_bytes}
use picotls.Record.{max_plaintext_record_size, content_type_appdata}
use picotls.Protect.{
  Aead, AeadLaws, push_record, next_seq, aead_encrypt, push_encrypted_rounds,
  buffer_push_encrypted_records, get_record_overhead,
}

pub length-push_record :
    (type : ℕ) (block : List ℕ) → length (push_record type block) ≡ length block + 5
unfolding push_record push_block
length-push_record type block =
    omega (arith, length-append (block_prefix (bytes 2) (length block)) block, length-prefix)
  where
    length-prefix : length (block_prefix (bytes 2) (length block)) ≡ 2
    length-prefix = unfold block_prefix in length-low_bytes 2 (length block)

-- The number of records for `n` bytes: the least that holds them at 16384 bytes each.
abbrev pub record_count : ℕ → ℕ
record_count n = (n + max_plaintext_record_size - 1) / max_plaintext_record_size

module _ {Ctx : Type 0} (a : Aead Ctx) (k : Ctx) where
  -- A round of the loop on input that is there.
  pub one_round :
      (rounds seq type : ℕ) (src : List ℕ)
      → 0 < length src
      → push_encrypted_rounds a (suc rounds) k seq type src ≡ (
          let rest =
            push_encrypted_rounds a rounds k
              (next_seq seq)
              type
              (drop max_plaintext_record_size src) in
          (
            push_record content_type_appdata
                  (aead_encrypt a k seq (take max_plaintext_record_size src) type).0
                ++ rest.0,
            rest.1,
          ))
  unfolding push_encrypted_rounds aead_encrypt
  one_round rounds seq type src h = rw (nonzero (length src) h) refl
    where
      nonzero : (n : ℕ) → 0 < n → (n == 0) ≡ false
      nonzero n p = ground arith

module _ {Ctx : Type 0} (a : Aead Ctx) (laws : AeadLaws a) (k : Ctx) where
  pub length-aead_encrypt :
      (seq : ℕ) (input : List ℕ) (type : ℕ)
      → length (aead_encrypt a k seq input type).0 ≡ length input + 1 + a.tag_size
  unfolding aead_encrypt
  length-aead_encrypt seq input type =
      omega (arith, laws.length-seal k seq _ (input ++ type ∷ []), length-append input (type ∷ []))

  rounds_size :
      (rounds seq type : ℕ) (src : List ℕ)
      → length src ≤ rounds
      → length (push_encrypted_rounds a rounds k seq type src).0
        ≡ length src + record_count (length src) * get_record_overhead a
  unfolding get_record_overhead
  rounds_size zero seq type [] h = unfold push_encrypted_rounds in omega arith
  rounds_size zero seq type (b ∷ src) h = absurd (omega arith)
  rounds_size (suc rounds) seq type [] h = unfold push_encrypted_rounds in omega arith
  rounds_size (suc rounds) seq type (b ∷ src) h =
      let all : List ℕ = b ∷ src in
      let chunk : List ℕ = take max_plaintext_record_size all in
      let left : List ℕ = drop max_plaintext_record_size all in
      let one : List ℕ = push_record content_type_appdata (aead_encrypt a k seq chunk type).0 in
      let rest : List ℕ = (push_encrypted_rounds a rounds k (next_seq seq) type left).0 in
      let left_size : length left ≡ length all - max_plaintext_record_size =
        length-drop max_plaintext_record_size all in
      let chunk_size : length chunk ≡ min max_plaintext_record_size (length all) =
        length-take max_plaintext_record_size all in
      let count : record_count (length all) ≡ record_count (length left) + 1 =
        omega (arith, left_size) in
      ap (λ t. length t.0) (one_round a k rounds seq type all (omega arith))
      ∙ omega (
        arith,
        length-append one rest,
        length-push_record content_type_appdata (aead_encrypt a k seq chunk type).0,
        length-aead_encrypt seq chunk type,
        rounds_size rounds (next_seq seq) type left (omega (arith, left_size)),
        ap (λ (c : ℕ). c * get_record_overhead a) count,
        left_size,
        chunk_size,
      )

  -- Sealing `src` appends `src`'s length, and the overhead that `get_record_overhead` states once
  -- for every 16384 bytes begun.
  pub length-buffer_push_encrypted_records :
      (seq type : ℕ) (src : List ℕ)
      → length (buffer_push_encrypted_records a k seq type src).0
        ≡ length src + record_count (length src) * get_record_overhead a
  unfolding buffer_push_encrypted_records
  length-buffer_push_encrypted_records seq type src =
      rounds_size (length src) seq type src (omega arith)
