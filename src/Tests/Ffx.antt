-- ===== src/Tests/Ffx.antt =====
-- Format-preserving encryption at concrete inputs.
use picotls.Prelude.{
  ℕ, ◌+◌, ◌%◌, ◌^◌, ◌≡◌, refl, Bool, true, false, List, [], ◌∷◌, arith, get_or, replicate, All, ok,
}
use picotls.Wire.{IsByte}
use picotls.Ffx.{FfxContext, ffx_setup_crypto, ffx_init, ffx_transform, last_byte, last_byte_mask}
use picotls.Ffx.RoundTrip.{ffx_transform-ffx_setup_crypto, ffx_transform_keeps_low_bits}

-- A key stream that depends on the iv.
abbrev stream : List ℕ → List ℕ
stream iv = ((get_or iv 0 0 + 90) % 256) ∷ (get_or iv 1 0 % 256) ∷ []

stream_bytes : (iv : List ℕ) → All IsByte (stream iv)
stream_bytes iv = (omega arith, (omega arith, tt))

-- 13 bits, in four rounds.
abbrev context : Bool → FfxContext
context is_enc = record {
  nb_rounds = 4;
  is_enc = is_enc;
  byte_length = 2;
  nb_left = 1;
  nb_right = 1;
  mask_last_byte = 0xe0;
  tweaks = replicate 16 0;
}

set_up : (is_enc : Bool) → ffx_setup_crypto true is_enc 4 13 ≡ ok (context is_enc)
unfolding ffx_setup_crypto last_byte_mask
set_up is_enc = refl

abbrev block : List ℕ
block = 0xab ∷ 0xcd ∷ []

ffx_transform-ffx_setup_crypto_example :
    ffx_transform stream
      (ffx_init (context false) (7 ∷ []))
      (ffx_transform stream (ffx_init (context true) (7 ∷ [])) block)
    ≡ block
ffx_transform-ffx_setup_crypto_example =
    ffx_transform-ffx_setup_crypto stream stream_bytes 4 13 (context true) (context false) (7 ∷ [])
      block (set_up true) (set_up false) refl refl (omega arith)

ffx_transform_keeps_low_bits_example :
    last_byte (ffx_transform stream (ffx_init (context true) (7 ∷ [])) block) % 2 ^ 5
    ≡ last_byte block % 2 ^ 5
ffx_transform_keeps_low_bits_example =
    ffx_transform_keeps_low_bits stream stream_bytes 4 13 (context true) (7 ∷ []) block
      (set_up true) refl (omega arith)
