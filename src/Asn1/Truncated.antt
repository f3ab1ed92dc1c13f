-- ===== src/Asn1/Truncated.antt =====
-- An element that ends behind its type.
use picotls.Prelude.{ℕ, ◌%◌, ◌≡◌, ◌≢◌, some, [], ◌∷◌, arith}
use picotls.Asn1.{
  type_of, asn1_read_type, asn1_read_length, validation_parts, validation_contents,
  validation_recursive, asn1_validation, verdict,
}

-- A single byte that holds a type in its short form is accepted, although the length that must
-- follow a type is not there.
pub asn1_validation_without_length : (t : ℕ) → t % 32 ≢ 31 → asn1_validation (t ∷ []) 1 ≡ some 0
unfolding asn1_validation asn1_read_type type_of asn1_read_length validation_recursive
    validation_contents validation_parts verdict
asn1_validation_without_length t h = ground arith
