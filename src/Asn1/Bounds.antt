-- ===== src/Asn1/Bounds.antt =====
-- How far the readers of types and lengths go.
use picotls.Prelude.{ℕ, zero, suc, ◌+◌, ◌-◌, ◌≤◌, ◌<◌, List, arith, get_or}
use picotls.Asn1.{
  LengthRead, shift_type, read_long_type, type_of, asn1_read_type, check_length, long_length,
  asn1_read_length,
}

read_long_type-bounds :
    (bytes : List ℕ) (left index long_type : ℕ)
    → (index ≤ (read_long_type bytes left index long_type).index)
      × ((read_long_type bytes left index long_type).index ≤ index + left)
unfolding read_long_type
read_long_type-bounds bytes zero index long_type = omega arith
read_long_type-bounds bytes (suc left) index long_type = ground (
  arith,
  read_long_type-bounds bytes left (index + 1) (shift_type long_type (get_or bytes index 0)),
)

pub asn1_read_type-bounds :
    (bytes : List ℕ) (bytes_max decode_error : ℕ)
    → 0 < bytes_max
    → (1 ≤ (asn1_read_type bytes bytes_max decode_error).index)
      × ((asn1_read_type bytes bytes_max decode_error).index ≤ bytes_max)
unfolding asn1_read_type type_of
asn1_read_type-bounds bytes bytes_max decode_error h =
    ground (arith, read_long_type-bounds bytes (bytes_max - 1) 1 0)

-- What a length leaves: its own bytes are inside, the element ends behind them.
abbrev pub Bounded : ℕ → ℕ → LengthRead → Type 0
Bounded bytes_max index r = (index ≤ r.index) × (r.index ≤ bytes_max) × (r.index ≤ r.last_byte)

pub asn1_read_length-Bounded :
    (bytes : List ℕ) (bytes_max index decode_error : ℕ)
    → index ≤ bytes_max
    → Bounded bytes_max index (asn1_read_length bytes bytes_max index decode_error)
unfolding asn1_read_length check_length long_length
asn1_read_length-Bounded bytes bytes_max index decode_error h = ground arith
