-- ===== src/Asn1.antt =====
-- ASN.1 in BER and DER, lib/asn1.c: `ptls_asn1_read_type`, `ptls_asn1_read_length`,
-- `ptls_asn1_get_expected_type_and_length`, `ptls_asn1_validation`. `bytes` is what lies in memory
-- from the pointer on, which can be more than `bytes_max` bytes. `decode_error` is an argument and a
-- field of the result; what goes to the log alone (`log_ctx`, `level`) is left out.
pub mod Bounds
pub mod Total
pub mod Depth
pub mod Reads
pub mod Truncated
pub mod Elements
pub mod Valid
use picotls.Prelude.{
  ℕ, zero, suc, ◌+◌, ◌-◌, ◌*◌, ◌/◌, ◌%◌, ◌^◌, bit_and, bit_or, Bool, true, false, not, ◌&&◌, ◌||◌,
  Option, none, some, List, ltb, leb, ◌==◌, if◌then◌else◌, length, get_or, drop,
}
use picotls.Code.{
  error_ber_malformed_type, error_ber_malformed_length, error_ber_excessive_length,
  error_ber_element_too_short, error_ber_unexpected_eoc, error_der_indefinite_length,
  error_incorrect_asn1_syntax,
}

-- The return value and the variables that `ptls_asn1_read_type` sets.
pub record TypeRead : Type 0 where
  pub index : ℕ
  pub structure_bit : ℕ
  pub type_class : ℕ
  pub type_number : ℕ
  pub decode_error : ℕ

pub record LongType : Type 0 where
  pub index : ℕ
  pub long_type : ℕ
  pub end_found : Bool

abbrev pub type_number_limit : ℕ
type_number_limit = 0x7FFFFFFF

-- `long_type <<= 7; long_type |= next_byte & 127`, in a uint32_t
unfoldable pub shift_type : ℕ → ℕ → ℕ
shift_type long_type b = bit_or (long_type * 2 ^ 7 % 2 ^ 32) (bit_and b 127)

-- The loop over the bytes of a long type; `left` is `bytes_max - byte_index`.
unfoldable pub read_long_type : List ℕ → ℕ → ℕ → ℕ → LongType
read_long_type bytes zero index long_type = record {
  index = index;
  long_type = long_type;
  end_found = false;
}
read_long_type bytes (suc left) index long_type =
    let b = get_or bytes index 0 in
    let long_type' = shift_type long_type b in
    let rest = read_long_type bytes left (index + 1) long_type' in
    if leb long_type type_number_limit
    then if bit_and b 128 == 0
      then record { index = index + 1; long_type = long_type'; end_found = true }
      else rest
    else record { index = index; long_type = long_type; end_found = false }

-- A type number of 31 in the first byte stands for a long type.
unfoldable pub type_of : ℕ → LongType → ℕ → TypeRead
type_of first_byte long decode_error =
    let structure_bit = first_byte / 2 ^ 5 % 2 in
    let type_class = first_byte / 2 ^ 6 % 4 in
    if first_byte % 32 == 31
    then record {
      index = long.index;
      structure_bit = structure_bit;
      type_class = type_class;
      type_number = if long.end_found then long.long_type else 31;
      decode_error = if long.end_found then decode_error else error_ber_malformed_type;
    }
    else record {
      index = 1;
      structure_bit = structure_bit;
      type_class = type_class;
      type_number = first_byte % 32;
      decode_error = decode_error;
    }

unfoldable pub asn1_read_type : List ℕ → ℕ → ℕ → TypeRead
asn1_read_type bytes bytes_max decode_error =
    type_of (get_or bytes 0 0) (read_long_type bytes (bytes_max - 1) 1 0) decode_error

-- The return value and the variables that `ptls_asn1_read_length` sets.
pub record LengthRead : Type 0 where
  pub index : ℕ
  pub length : ℕ
  pub indefinite_length : Bool
  pub last_byte : ℕ
  pub decode_error : ℕ

-- `*length <<= 8; *length |= bytes[byte_index++]`, in a uint32_t, for `count` bytes. The source's
-- second test, `byte_index < bytes_max`, holds throughout: the bytes are there before the loop.
unfoldable pub read_length_bytes : List ℕ → ℕ → ℕ → ℕ → ℕ
read_length_bytes bytes zero index len = len
read_length_bytes bytes (suc count) index len =
    read_length_bytes bytes count (index + 1) (bit_or (len * 2 ^ 8 % 2 ^ 32) (get_or bytes index 0))

-- "Length larger than message"
unfoldable pub check_length : ℕ → LengthRead → LengthRead
check_length bytes_max r =
    if r.decode_error == 0 && ltb bytes_max r.last_byte
    then record r { decode_error = error_ber_excessive_length }
    else r

-- The length whose first byte `b` has its top bit set; `index` is behind it.
unfoldable pub long_length : List ℕ → ℕ → ℕ → ℕ → ℕ → LengthRead
long_length bytes bytes_max index b decode_error =
    let n = b % 128 in
    let len = read_length_bytes bytes n index 0 in
    if leb bytes_max (index + n)
    then record {
      index = index;
      length = 0;
      indefinite_length = false;
      last_byte = bytes_max;
      decode_error = error_ber_malformed_length;
    }
    else if n == 0
    then record {
      index = index;
      length = 0;
      indefinite_length = true;
      last_byte = bytes_max;
      decode_error = decode_error;
    }
    else record {
      index = index + n;
      length = len;
      indefinite_length = false;
      last_byte = index + n + len;
      decode_error = decode_error;
    }

unfoldable pub asn1_read_length : List ℕ → ℕ → ℕ → ℕ → LengthRead
asn1_read_length bytes bytes_max index decode_error =
    let b = get_or bytes index 0 in
    if ltb index bytes_max
    then check_length bytes_max (
        if leb 128 b then long_length bytes bytes_max (index + 1) b decode_error else record {
          index = index + 1;
          length = b;
          indefinite_length = false;
          last_byte = index + 1 + b;
          decode_error = decode_error;
        })
    else record {
      index = index;
      length = 0;
      indefinite_length = false;
      last_byte = bytes_max;
      decode_error = decode_error;
    }

-- A caller that takes no indefinite length passes NULL, `takes_indefinite` false. On an unexpected
-- type only the index and the error are set.
unfoldable pub get_expected_type_and_length : List ℕ → ℕ → ℕ → ℕ → Bool → ℕ → LengthRead
get_expected_type_and_length bytes bytes_max index expected_type takes_indefinite decode_error =
    let r = asn1_read_length bytes bytes_max (index + 1) decode_error in
    if get_or bytes index 0 == expected_type
    then if r.indefinite_length && not takes_indefinite
      then record r { decode_error = error_der_indefinite_length }
      else r
    else record {
      index = index;
      length = 0;
      indefinite_length = false;
      last_byte = 0;
      decode_error = error_incorrect_asn1_syntax;
    }

-- The return value, and `*decode_error`. `none` is an end of the model's fuel.
pub record Walk : Type 0 where
  pub index : ℕ
  pub decode_error : ℕ

-- At the end of an indefinite length: two zero bytes, or an error.
unfoldable pub end_of_contents : List ℕ → ℕ → ℕ → ℕ → Walk
end_of_contents bytes bytes_max index decode_error =
    if ltb bytes_max (index + 2) || not (get_or bytes (index + 1) 0 == 0)
    then record { index = bytes_max; decode_error = error_ber_unexpected_eoc }
    else record { index = index + 2; decode_error = decode_error }

-- The loop goes on behind a part, unless the part is in error.
unfoldable pub after_part : ℕ → Walk → Option Walk → Option Walk
after_part bytes_max w rest =
    if w.decode_error == 0
    then rest
    else some (record { index = bytes_max; decode_error = w.decode_error })

-- The loop over the parts of a structured element. `part` is the recursive call, on what is left of
-- the element. A round takes a byte at least.
unfoldable pub validation_parts :
    (List ℕ → ℕ → ℕ → Option Walk) → ℕ → List ℕ → ℕ → LengthRead → ℕ → ℕ → Option Walk
validation_parts part zero bytes bytes_max l index decode_error = none
validation_parts part (suc rounds) bytes bytes_max l index decode_error =
    let go_on : Option Walk = elim (part (drop index bytes) (l.last_byte - index) decode_error) [
      | none ↦ none
      | some w ↦
          after_part bytes_max w
            (validation_parts part rounds bytes bytes_max l (index + w.index) w.decode_error)
    ] in
    if leb l.last_byte index
    then some (record { index = index; decode_error = decode_error })
    else if l.indefinite_length && get_or bytes index 0 == 0
    then some (end_of_contents bytes bytes_max index decode_error)
    else go_on

-- An element behind its type and length.
unfoldable pub validation_contents :
    (List ℕ → ℕ → ℕ → Option Walk) → List ℕ → ℕ → TypeRead → LengthRead → Option Walk
validation_contents part bytes bytes_max t l =
    if leb l.last_byte bytes_max
    then if t.structure_bit == 0
      then some (record { index = l.last_byte; decode_error = l.decode_error })
      else validation_parts part (bytes_max + 1) bytes bytes_max l l.index l.decode_error
    else some (record { index = l.index; decode_error = l.decode_error })

-- The fuel bounds the depth; a part is shorter than the element that it stands in.
unfoldable pub validation_recursive : ℕ → List ℕ → ℕ → ℕ → Option Walk
validation_recursive zero bytes bytes_max decode_error = none
validation_recursive (suc depth) bytes bytes_max decode_error =
    let t = asn1_read_type bytes bytes_max decode_error in
    validation_contents (validation_recursive depth) bytes bytes_max t
      (asn1_read_length bytes bytes_max t.index t.decode_error)

-- `decode_error`, and whether the walk covers the whole message.
unfoldable pub verdict : ℕ → Walk → ℕ
verdict size w =
    if w.decode_error == 0 && ltb w.index size then error_ber_element_too_short else w.decode_error

-- An element of `size` bytes is nested at most that deep.
unfoldable pub asn1_validation : List ℕ → ℕ → Option ℕ
asn1_validation bytes size = elim (validation_recursive (size + 1) bytes size 0) [
  | none ↦ none
  | some w ↦ some (verdict size w)
]
