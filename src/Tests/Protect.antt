-- ===== src/Tests/Protect.antt =====
-- Sealed records at concrete inputs, with an AEAD that only appends a tag byte.
use picotls.Prelude.{
  ℕ, ◌+◌, ◌*◌, ◌%◌, ◌≡◌, refl, Bool, true, Option, none, some, List, [], ◌∷◌, ◌++◌, arith, length,
  length-append, ok,
}
use mathlib.Core.Option
use picotls.Protect.{Aead, AeadLaws, buffer_push_encrypted_records, get_record_overhead}
use picotls.Protect.Sizes.{record_count, length-buffer_push_encrypted_records}
use picotls.Protect.RoundTrip.{receive, receive-buffer_push_encrypted_records}

abbrev always : ℕ → ℕ → Bool
always off delta = true

abbrev drop_last : List ℕ → Option (List ℕ)
drop_last [] = none
drop_last (t ∷ []) = some []
drop_last (b ∷ c ∷ text) = Option.map (λ r. b ∷ r) (drop_last (c ∷ text))

-- The tag is the sequence number's lowest byte, and is not checked.
abbrev pub tagging : Aead ℕ
tagging = record {
  tag_size = 1;
  seal = λ k seq aad text. text ++ (seq % 256) ∷ [];
  unseal = λ k seq aad text. drop_last text;
}

drop_last-append : (text : List ℕ) (t : ℕ) → drop_last (text ++ t ∷ []) ≡ some text
drop_last-append [] t = refl
drop_last-append (b ∷ []) t = refl
drop_last-append (b ∷ c ∷ text) t = rw (drop_last-append (c ∷ text) t) refl

pub tagging-laws : AeadLaws tagging
tagging-laws = record {
  unseal-seal = λ k seq aad text h. drop_last-append text (seq % 256);
  length-seal = λ k seq aad text. length-append text ((seq % 256) ∷ []);
  tag_fits = omega arith;
}

length-buffer_push_encrypted_records_example :
    length (buffer_push_encrypted_records tagging 0 5 23 (1 ∷ 2 ∷ 3 ∷ [])).0
    ≡ 3 + record_count 3 * get_record_overhead tagging
length-buffer_push_encrypted_records_example =
    length-buffer_push_encrypted_records tagging tagging-laws 0 5 23 (1 ∷ 2 ∷ 3 ∷ [])

receive-buffer_push_encrypted_records_example :
    receive tagging always 0 3 5 23
      (buffer_push_encrypted_records tagging 0 5 23 (1 ∷ 2 ∷ 0 ∷ [])).0
    ≡ ok (1 ∷ 2 ∷ 0 ∷ [], (buffer_push_encrypted_records tagging 0 5 23 (1 ∷ 2 ∷ 0 ∷ [])).1)
receive-buffer_push_encrypted_records_example =
    receive-buffer_push_encrypted_records tagging always 0 tagging-laws 5 23 (1 ∷ 2 ∷ 0 ∷ [])
      (omega arith) (omega arith) (omega arith)
