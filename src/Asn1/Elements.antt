-- ===== src/Asn1/Elements.antt =====
-- Elements as trees, their encoding, and what is read of its types and lengths.
use picotls.Prelude.{
  ℕ, suc, ◌+◌, ◌*◌, ◌/◌, ◌%◌, ◌^◌, ◌≤◌, ◌<◌, bit_or, ◌≡◌, refl, ap, ◌∙◌, ◌≢◌, false, List, [], ◌∷◌,
  ◌++◌, arith, ltb, if◌then◌else◌, length,
}
use picotls.Prelude.Bits.{bit_or_add}
use picotls.Asn1.{
  TypeRead, LengthRead, type_of, asn1_read_type, read_length_bytes, check_length, long_length,
  asn1_read_length,
}

-- A sequence of elements. A plain one has bytes, a structured one has elements.
pub data Elements : Type 0 where
  end : Elements
  plain : (tag : ℕ) (contents : List ℕ) (rest : Elements) → Elements
  structured : (tag : ℕ) (inner rest : Elements) → Elements

-- Below 128 in one byte, else in two behind 0x82.
abbrev pub encode_length : ℕ → List ℕ
encode_length n = if ltb n 128 then n ∷ [] else 0x82 ∷ n / 2 ^ 8 ∷ n % 2 ^ 8 ∷ []

abbrev pub encode_element : ℕ → List ℕ → List ℕ
encode_element tag contents = tag ∷ encode_length (length contents) ++ contents

unfoldable pub encode_elements : Elements → List ℕ
encode_elements end = []
encode_elements (plain tag contents rest) = encode_element tag contents ++ encode_elements rest
encode_elements (structured tag inner rest) =
    encode_element tag (encode_elements inner) ++ encode_elements rest

-- A tag in the short form, with the structure bit as given.
abbrev pub IsTag : ℕ → ℕ → Type 0
IsTag structure_bit tag = (tag % 32 ≢ 31) × (tag / 2 ^ 5 % 2 ≡ structure_bit)

abbrev pub AreWritable : Elements → Type 0
AreWritable end = Unit {0}
AreWritable (plain tag contents rest) = IsTag 0 tag × (length contents < 2 ^ 16) × AreWritable rest
AreWritable (structured tag inner rest) =
    IsTag 1 tag × (length (encode_elements inner) < 2 ^ 16) × AreWritable inner × AreWritable rest

-- What is read of an encoded length at index 1.
abbrev pub short_read : ℕ → LengthRead
short_read n = record {
  index = suc (length (encode_length n));
  length = n;
  indefinite_length = false;
  last_byte = suc (length (encode_length n)) + n;
  decode_error = 0;
}

read_two :
    (tag n : ℕ) (rest : List ℕ)
    → n < 2 ^ 16
    → read_length_bytes (tag ∷ 0x82 ∷ n / 2 ^ 8 ∷ n % 2 ^ 8 ∷ rest) 2 2 0 ≡ n
unfolding read_length_bytes
read_two tag n rest h =
    let high : bit_or 0 (n / 2 ^ 8) ≡ n / 2 ^ 8 =
      omega (arith, bit_or_add 8 0 0 (n / 2 ^ 8) refl (omega arith)) in
    ap (λ (t : ℕ). bit_or (t * 2 ^ 8 % 2 ^ 32) (n % 2 ^ 8)) high
    ∙ bit_or_add 8 (n / 2 ^ 8) (n / 2 ^ 8 * 2 ^ 8 % 2 ^ 32) (n % 2 ^ 8) (omega arith) (omega arith)
    ∙ omega arith

pub asn1_read_length-encode_length :
    (tag n bytes_max : ℕ) (rest : List ℕ)
    → n < 2 ^ 16
    → suc (length (encode_length n)) + n ≤ bytes_max
    → asn1_read_length (tag ∷ encode_length n ++ rest) bytes_max 1 0 ≡ short_read n
unfolding asn1_read_length check_length long_length
asn1_read_length-encode_length tag n bytes_max rest h room = ground (arith, read_two tag n rest h)

abbrev pub short_type : ℕ → ℕ → TypeRead
short_type structure_bit tag = record {
  index = 1;
  structure_bit = structure_bit;
  type_class = tag / 2 ^ 6 % 4;
  type_number = tag % 32;
  decode_error = 0;
}

pub asn1_read_type_of_tag :
    (structure_bit tag bytes_max : ℕ) (rest : List ℕ)
    → IsTag structure_bit tag
    → asn1_read_type (tag ∷ rest) bytes_max 0 ≡ short_type structure_bit tag
unfolding asn1_read_type type_of
asn1_read_type_of_tag structure_bit tag bytes_max rest h = ground (arith, h.0, h.1)
