-- ===== src/Tests/Wire.antt =====
-- The integers and blocks of the wire format at concrete inputs.
use picotls.Prelude.{ℕ, ◌≡◌, refl, List, [], ◌∷◌, ◌++◌, arith, ok}
use picotls.Wire.{shift_in}
use picotls.Wire.{
  bytes, decode16, decode24, decode32, decode64, push16, push24, push32, push64, decode_quicint,
  encode_quicint, push_block, decode_open_block, take_all, block_size, read_block, close_block,
}
use picotls.Wire.Integers.{decode-push_mod, decode_quicint-encode_quicint}
use picotls.Wire.Blocks.{decode_open_block-push_block, decode_open_block-Inside, Inside}

quicint_two_bytes : encode_quicint 15293 ≡ 0x7b ∷ 0xbd ∷ []
unfolding encode_quicint
quicint_two_bytes = refl

decode-push_mod_example :
    (decode16 (push16 0x10304 ++ 7 ∷ []) ≡ ok (0x0304, 7 ∷ []))
    × (decode24 (push24 0x10304 ++ 7 ∷ []) ≡ ok (0x10304, 7 ∷ []))
    × (decode32 (push32 0x10304 ++ 7 ∷ []) ≡ ok (0x10304, 7 ∷ []))
    × (decode64 (push64 0x10304 ++ 7 ∷ []) ≡ ok (0x10304, 7 ∷ []))
decode-push_mod_example = decode-push_mod 0x10304 (7 ∷ [])

decode_quicint-encode_quicint_example :
    decode_quicint (encode_quicint 494878333 ++ 1 ∷ []) ≡ (494878333, 1 ∷ [])
decode_quicint-encode_quicint_example =
    decode_quicint-encode_quicint 494878333 (1 ∷ []) (omega arith)

decode_open_block-push_block_example :
    decode_open_block (bytes 2) take_all (push_block (bytes 2) (1 ∷ 2 ∷ 3 ∷ []) ++ 9 ∷ [])
    ≡ ok (1 ∷ 2 ∷ 3 ∷ [], 9 ∷ [])
decode_open_block-push_block_example =
    decode_open_block-push_block (bytes 2) (1 ∷ 2 ∷ 3 ∷ []) (9 ∷ []) (omega arith, omega arith)

-- The size is that of the block, and one byte is left.
one_block : decode_open_block (bytes 1) take_all (2 ∷ 5 ∷ 6 ∷ 9 ∷ []) ≡ ok (5 ∷ 6 ∷ [], 9 ∷ [])
unfolding decode_open_block read_block close_block block_size shift_in
one_block = refl

decode_open_block-Inside_example :
    (size : ℕ) × (rest : List ℕ) × (block_size (bytes 1) (2 ∷ 5 ∷ 6 ∷ 9 ∷ []) ≡ ok (size, rest))
    × Inside take_all (5 ∷ 6 ∷ []) (9 ∷ []) size rest
decode_open_block-Inside_example =
    decode_open_block-Inside (bytes 1) take_all (2 ∷ 5 ∷ 6 ∷ 9 ∷ []) (5 ∷ 6 ∷ []) (9 ∷ []) one_block
