-- ===== src/Tests/Asn1.antt =====
-- ASN.1 at concrete inputs.
use picotls.Prelude.{ℕ, ◌≡◌, some, List, [], ◌∷◌, ◌++◌, arith, length}
use picotls.Asn1.{asn1_validation}
use picotls.Asn1.Elements.{Elements, end, plain, structured, encode_elements}
use picotls.Asn1.Reads.{asn1_validation-append}
use picotls.Asn1.Valid.{asn1_validation-encode_elements}
use picotls.Asn1.Truncated.{asn1_validation_without_length}

-- A sequence of an integer and an empty sequence.
abbrev sequence : List ℕ
sequence = 0x30 ∷ 5 ∷ 2 ∷ 1 ∷ 9 ∷ 0x30 ∷ 0 ∷ []

asn1_validation-append_example :
    asn1_validation (sequence ++ 7 ∷ 8 ∷ []) (length sequence)
    ≡ asn1_validation sequence (length sequence)
asn1_validation-append_example = asn1_validation-append sequence (7 ∷ 8 ∷ []) (omega arith)

asn1_validation_without_length_example : asn1_validation (2 ∷ []) 1 ≡ some 0
asn1_validation_without_length_example = asn1_validation_without_length 2 (omega arith)

abbrev inner : Elements
inner = plain 2 (9 ∷ []) (structured 0x30 end end)

asn1_validation-encode_elements_example :
    asn1_validation
      (encode_elements (structured 0x30 inner end))
      (length (encode_elements (structured 0x30 inner end)))
    ≡ some 0
unfolding encode_elements
asn1_validation-encode_elements_example = asn1_validation-encode_elements 0x30 inner (
  (omega arith, omega arith),
  omega arith,
  ((omega arith, omega arith), omega arith, ((omega arith, omega arith), omega arith, tt, tt)),
  tt,
)
