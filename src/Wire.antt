-- ===== src/Wire.antt =====
-- Bytes on the wire: the integer readers and writers of lib/picotls.c and the block macros of
-- include/picotls.h. What a pointer pair (src, end) still covers is a list of bytes.
pub mod Integers
pub mod Blocks
use picotls.Prelude.{
  ℕ, zero, suc, ◌+◌, ◌-◌, ◌*◌, ◌/◌, ◌%◌, ◌^◌, ◌<◌, bit_and, bit_or, Bool, List, [], ◌∷◌, ◌++◌, ltb,
  leb, ◌==◌, if◌then◌else◌, length, take, drop, Result, ok, err, ◌>>=◌, ◌>>◌, guard,
}
use picotls.Code.{alert_decode_error}

abbrev pub IsByte : ℕ → Type 0
IsByte b = b < 256

abbrev pub uint64_max : ℕ
uint64_max = 2 ^ 64 - 1

-- `x << 8 | b` in a uint64_t.
unfoldable pub shift_in : ℕ → ℕ → ℕ
shift_in x b = bit_or (x * 256 % 2 ^ 64) b

unfoldable pub ntoh16 : ℕ → ℕ → ℕ
ntoh16 b0 b1 = bit_or (b0 * 2 ^ 8) b1

unfoldable pub ntoh24 : ℕ → ℕ → ℕ → ℕ
ntoh24 b0 b1 b2 = bit_or (bit_or (b0 * 2 ^ 16) (b1 * 2 ^ 8)) b2

unfoldable pub ntoh32 : ℕ → ℕ → ℕ → ℕ → ℕ
ntoh32 b0 b1 b2 b3 = bit_or (bit_or (bit_or (b0 * 2 ^ 24) (b1 * 2 ^ 16)) (b2 * 2 ^ 8)) b3

unfoldable pub ntoh64 : ℕ → ℕ → ℕ → ℕ → ℕ → ℕ → ℕ → ℕ → ℕ
ntoh64 b0 b1 b2 b3 b4 b5 b6 b7 =
    bit_or
      (bit_or
        (bit_or
          (bit_or (bit_or (bit_or (bit_or (b0 * 2 ^ 56) (b1 * 2 ^ 48)) (b2 * 2 ^ 40)) (b3 * 2 ^ 32))
            (b4 * 2 ^ 24))
          (b5 * 2 ^ 16))
        (b6 * 2 ^ 8))
      b7

unfoldable pub decode16 : List ℕ → Result (ℕ × List ℕ)
unfolding ntoh16
decode16 (b0 ∷ b1 ∷ src) = ok (ntoh16 b0 b1, src)
decode16 _ = err alert_decode_error

unfoldable pub decode24 : List ℕ → Result (ℕ × List ℕ)
unfolding ntoh24
decode24 (b0 ∷ b1 ∷ b2 ∷ src) = ok (ntoh24 b0 b1 b2, src)
decode24 _ = err alert_decode_error

unfoldable pub decode32 : List ℕ → Result (ℕ × List ℕ)
unfolding ntoh32
decode32 (b0 ∷ b1 ∷ b2 ∷ b3 ∷ src) = ok (ntoh32 b0 b1 b2 b3, src)
decode32 _ = err alert_decode_error

unfoldable pub decode64 : List ℕ → Result (ℕ × List ℕ)
unfolding ntoh64
decode64 (b0 ∷ b1 ∷ b2 ∷ b3 ∷ b4 ∷ b5 ∷ b6 ∷ b7 ∷ src) = ok (ntoh64 b0 b1 b2 b3 b4 b5 b6 b7, src)
decode64 _ = err alert_decode_error

-- `uint16_t _v = (v)` and so on: each byte written is a byte of `v`.
unfoldable pub push16 : ℕ → List ℕ
push16 v = (v / 2 ^ 8 % 256) ∷ (v % 256) ∷ []

unfoldable pub push24 : ℕ → List ℕ
push24 v = (v / 2 ^ 16 % 256) ∷ (v / 2 ^ 8 % 256) ∷ (v % 256) ∷ []

unfoldable pub push32 : ℕ → List ℕ
push32 v = (v / 2 ^ 24 % 256) ∷ (v / 2 ^ 16 % 256) ∷ (v / 2 ^ 8 % 256) ∷ (v % 256) ∷ []

unfoldable pub push64 : ℕ → List ℕ
push64 v =
    (v / 2 ^ 56 % 256)
    ∷ (v / 2 ^ 48 % 256)
    ∷ (v / 2 ^ 40 % 256)
    ∷ (v / 2 ^ 32 % 256)
    ∷ (v / 2 ^ 24 % 256)
    ∷ (v / 2 ^ 16 % 256)
    ∷ (v / 2 ^ 8 % 256)
    ∷ (v % 256)
    ∷ []

-- `do { v = v << 8 | *src++; } while (--left != 0)`, when `left` bytes are there.
unfoldable pub read_bytes : ℕ → ℕ → List ℕ → ℕ × List ℕ
read_bytes zero v src = (v, src)
read_bytes (suc left) v [] = (v, [])
read_bytes (suc left) v (b ∷ src) = read_bytes left (shift_in v b) src

-- UINT64_MAX stands for a failure; the pointer may have moved by then.
unfoldable pub decode_quicint : List ℕ → ℕ × List ℕ
decode_quicint [] = (uint64_max, [])
decode_quicint (b ∷ src) =
    if leb b 0x3f
    then (b, src)
    else let bytes_left = 2 ^ (b / 64) - 1 in
      if ltb (length src) bytes_left
      then (uint64_max, src)
      else read_bytes bytes_left (bit_and b 0x3f) src

-- The bytes of `v` from bit `8 * (k - 1)` down to bit 0.
unfoldable pub low_bytes : ℕ → ℕ → List ℕ
low_bytes zero v = []
low_bytes (suc k) v = (v / 256 ^ k % 256) ∷ low_bytes k v

-- The source asserts `v <= 4611686018427387903`. The loops over `sb` end with the byte at bit 8,
-- and a last line writes the lowest byte, so each is a run of `low_bytes`.
unfoldable pub encode_quicint : ℕ → List ℕ
unfolding low_bytes
encode_quicint v =
    if ltb 63 v
    then if ltb 16383 v
      then if ltb 1073741823 v
        then bit_or 0xc0 (v / 2 ^ 56 % 256) ∷ low_bytes 7 v
        else bit_or 0x80 (v / 2 ^ 24 % 256) ∷ low_bytes 3 v
      else bit_or 0x40 (v / 2 ^ 8 % 256) ∷ low_bytes 1 v
    else v ∷ []

-- The `_capacity` argument of the block macros; -1 asks for a QUIC integer.
pub data Capacity : Type 0 where
  bytes : ℕ → Capacity
  quic : Capacity

-- The length prefix that `ptls_buffer_push_block` leaves in front of a body.
unfoldable pub block_prefix : Capacity → ℕ → List ℕ
unfolding low_bytes encode_quicint
block_prefix (bytes k) size = low_bytes k size
block_prefix quic size = encode_quicint size

unfoldable pub push_block : Capacity → List ℕ → List ℕ
unfolding block_prefix
push_block cap body = block_prefix cap (length body) ++ body

-- A capacity in bytes is not 0: no caller passes that, and the source's loop would not end at it.
unfoldable pub block_size : Capacity → List ℕ → Result (ℕ × List ℕ)
unfolding read_bytes decode_quicint
block_size (bytes k) src =
    if ltb (length src) k then err alert_decode_error else ok (read_bytes k 0 src)
block_size quic src =
    let (size, rest) = decode_quicint src in
    if size == uint64_max then err alert_decode_error else ok (size, rest)

abbrev pub is_empty : List ℕ → Bool
is_empty src = length src == 0

-- `if ((src) != end)` after the code of the block, where `rest` follows the block.
unfoldable pub close_block {ℓ} : {A : Type ℓ} → List ℕ → A × List ℕ → Result (A × List ℕ)
close_block rest (a, left) = if is_empty left then ok (a, rest) else err alert_decode_error

-- The macro behind the size. `body` is the code of the block: it reads up to the block's end.
unfoldable pub read_block {ℓ} :
    {A : Type ℓ} → (List ℕ → Result (A × List ℕ)) → ℕ × List ℕ → Result (A × List ℕ)
unfolding close_block
read_block body (size, rest) =
    if leb size (length rest)
    then body (take size rest) >>= close_block (drop size rest)
    else err alert_decode_error

unfoldable pub decode_open_block {ℓ} :
    {A : Type ℓ} → Capacity → (List ℕ → Result (A × List ℕ)) → List ℕ → Result (A × List ℕ)
decode_open_block cap body src = block_size cap src >>= read_block body

-- `ptls_decode_block`: the block is also the last thing before `end`.
unfoldable pub decode_block {ℓ} :
    {A : Type ℓ} → Capacity → (List ℕ → Result (A × List ℕ)) → List ℕ → Result (A × List ℕ)
unfolding decode_open_block
decode_block cap body src = do
  (a, left) ← decode_open_block cap body src
  guard (is_empty left) alert_decode_error
  ok (a, left)

-- The body that takes the whole block as a value, `x = ptls_iovec_init(src, end - src); src = end`.
abbrev pub take_all : List ℕ → Result (List ℕ × List ℕ)
take_all src = ok (src, [])
