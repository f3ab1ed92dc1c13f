-- ===== src/Tests/Extensions.antt =====
-- The extensions of a message at a concrete input.
use picotls.Prelude.{ℕ, ◌+◌, ◌≡◌, refl, List, [], ◌∷◌, length, Result, ok}
use picotls.Wire.{
  ntoh16, decode16, read_bytes, shift_in, block_size, close_block, read_block, decode_open_block,
}
use picotls.Extensions.{
  extension_bitmap_is_set, extension_bitmap_set, is_allowed, forbid, init_extension_bitmap,
  extension_rounds, decode_open_extensions, decode_extensions,
}
use picotls.Extensions.Seen.{Distinct, ArePermitted}
use picotls.Extensions.Distinct.{logged, decode_extensions-Distinct}

abbrev add_size : ℕ → ℕ → List ℕ → Result (ℕ × List ℕ)
add_size a t body = ok (a + length body, [])

-- server_name and supported_versions, in a ClientHello
abbrev extensions : List ℕ
extensions = 0 ∷ 10 ∷ 0 ∷ 0 ∷ 0 ∷ 1 ∷ 7 ∷ 0 ∷ 43 ∷ 0 ∷ 1 ∷ 9 ∷ []

accepted : decode_extensions (logged add_size) 1 (0, []) extensions ≡ ok (2, 43 ∷ 0 ∷ [])
unfolding decode_extensions decode_open_extensions extension_rounds init_extension_bitmap forbid
    is_allowed extension_bitmap_is_set extension_bitmap_set decode_open_block read_block close_block
    block_size read_bytes shift_in decode16 ntoh16
accepted = refl

decode_extensions-Distinct_example : Distinct (43 ∷ 0 ∷ []) × ArePermitted 1 (43 ∷ 0 ∷ [])
decode_extensions-Distinct_example =
    decode_extensions-Distinct add_size 1 0 2 extensions (43 ∷ 0 ∷ []) accepted
