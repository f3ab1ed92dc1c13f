-- ===== src/Ffx.antt =====
-- Format-preserving encryption, lib/ffx.c: a Feistel network over a cipher that is outside the
-- repository. `confuse iv` is what `ptls_cipher_init` with `iv` and `ptls_cipher_encrypt` of 16 zero
-- bytes leave in `confusion`. The halves are lists of `nb_left` and `nb_right` bytes; the zero bytes
-- behind them in the arrays are never read.
pub mod Masks
pub mod Rounds
pub mod RoundTrip
use picotls.Prelude.{
  ℕ, zero, suc, ◌+◌, ◌-◌, ◌/◌, ◌%◌, bit_and, bit_or, bit_xor, Bool, ◌&&◌, List, [], ◌∷◌, ◌++◌, leb,
  ◌==◌, if◌then◌else◌, length, get_or, set, take, drop, replicate, Result, ok, err,
}
use picotls.Code.{error_library}

-- `last_byte_mask`
unfoldable pub last_byte_mask : List ℕ
last_byte_mask = 0xff ∷ 0xfe ∷ 0xfc ∷ 0xf8 ∷ 0xf0 ∷ 0xe0 ∷ 0xc0 ∷ 0x80 ∷ []

-- `ptls_ffx_context_t`, less the function pointers that `ptls_ffx_setup_crypto` sets.
pub record FfxContext : Type 0 where
  pub nb_rounds : ℕ
  pub is_enc : Bool
  pub byte_length : ℕ
  pub nb_left : ℕ
  pub nb_right : ℕ
  pub mask_last_byte : ℕ
  pub tweaks : List ℕ

-- `has_cipher` says whether `ptls_cipher_new` returns a context.
unfoldable pub ffx_setup_crypto : Bool → Bool → ℕ → ℕ → Result FfxContext
unfolding last_byte_mask
ffx_setup_crypto has_cipher is_enc nb_rounds bit_length =
    let len = (bit_length + 7) / 8 in
    if leb len 32 && leb 2 len && has_cipher
    then ok (record {
      nb_rounds = nb_rounds;
      is_enc = is_enc;
      byte_length = len;
      nb_left = len / 2;
      nb_right = len - len / 2;
      mask_last_byte = get_or last_byte_mask (bit_length % 8) 0;
      tweaks = replicate 16 0;
    })
    else err error_library

-- `memcpy(ctx->tweaks, iv, 16)`
unfoldable pub ffx_init : FfxContext → List ℕ → FfxContext
ffx_init ctx iv = record ctx { tweaks = take 16 iv }

-- `for (i = 0; i < source_size; i++) iv[i] ^= source[i]`
unfoldable pub xor_source : List ℕ → List ℕ → List ℕ
xor_source [] source = []
xor_source (b ∷ iv) [] = b ∷ iv
xor_source (b ∷ iv) (s ∷ source) = bit_xor b s ∷ xor_source iv source

-- Every byte of the target, and the last under the mask.
unfoldable pub xor_target : ℕ → List ℕ → List ℕ → List ℕ
xor_target mask [] confusion = []
xor_target mask (t ∷ target) [] = t ∷ target
xor_target mask (t ∷ []) (c ∷ confusion) = bit_xor t (bit_and c mask) ∷ []
xor_target mask (t ∷ u ∷ target) (c ∷ confusion) =
    bit_xor t c ∷ xor_target mask (u ∷ target) confusion

-- `f` on the last byte.
unfoldable pub at_last : (ℕ → ℕ) → List ℕ → List ℕ
at_last f [] = []
at_last f (b ∷ []) = f b ∷ []
at_last f (b ∷ c ∷ rest) = b ∷ at_last f (c ∷ rest)

unfoldable pub last_byte : List ℕ → ℕ
last_byte [] = 0
last_byte (b ∷ []) = b
last_byte (b ∷ c ∷ rest) = last_byte (c ∷ rest)

-- `last_byte & ~mask` of a byte.
abbrev pub outside : ℕ → ℕ → ℕ
outside mask b = bit_and b (255 - mask)

-- `right[nb_right - 1] &= mask`, and the bits outside the mask put back.
unfoldable pub restore_last : ℕ → ℕ → ℕ → ℕ
restore_last mask saved b = bit_or (bit_and b mask) (outside mask saved)

module _ (confuse : List ℕ → List ℕ) where
  -- The iv of a pass. `round` and `nb_rounds` are uint8_t there.
  unfoldable pub pass_iv : FfxContext → List ℕ → ℕ → List ℕ
  unfolding xor_source
  pass_iv ctx source round =
      let at = round % 256 % 16 in
      xor_source (set ctx.tweaks at (bit_xor (get_or ctx.tweaks at 0) (ctx.nb_rounds % 256))) source

  -- The target after the pass.
  unfoldable pub ffx_one_pass : FfxContext → ℕ → List ℕ → List ℕ → ℕ → List ℕ
  ffx_one_pass ctx mask source target round =
      xor_target mask target (confuse (pass_iv ctx source round))

  -- The two halves after a round of each loop.
  unfoldable pub encrypt_round : FfxContext → ℕ → List ℕ × List ℕ → List ℕ × List ℕ
  encrypt_round ctx i halves =
      let left = ffx_one_pass ctx 0xff halves.1 halves.0 i in
      (left, ffx_one_pass ctx ctx.mask_last_byte left halves.1 (i + 1))

  -- `nb_rounds - 1 - i` and `nb_rounds - 2 - i`, which a uint8_t takes modulo 256.
  unfoldable pub decrypt_round : FfxContext → ℕ → List ℕ × List ℕ → List ℕ × List ℕ
  decrypt_round ctx i halves =
      let right =
        ffx_one_pass ctx ctx.mask_last_byte halves.0 halves.1 (ctx.nb_rounds + 256 - 1 - i) in
      (ffx_one_pass ctx 0xff right halves.0 (ctx.nb_rounds + 256 - 2 - i), right)

  -- `for (int i = 0; i < nb_rounds; i += 2)` from `i` on, with `n` rounds to go.
  unfoldable pub encrypt_rounds : ℕ → FfxContext → ℕ → List ℕ × List ℕ → List ℕ × List ℕ
  encrypt_rounds zero ctx i halves = halves
  encrypt_rounds (suc n) ctx i halves = encrypt_rounds n ctx (i + 2) (encrypt_round ctx i halves)

  unfoldable pub decrypt_rounds : ℕ → FfxContext → ℕ → List ℕ × List ℕ → List ℕ × List ℕ
  decrypt_rounds zero ctx i halves = halves
  decrypt_rounds (suc n) ctx i halves = decrypt_rounds n ctx (i + 2) (decrypt_round ctx i halves)

  -- What both loops have in common: all their rounds.
  abbrev pub all_rounds : FfxContext → List ℕ × List ℕ → List ℕ × List ℕ
  all_rounds ctx halves =
      let n = (ctx.nb_rounds + 1) / 2 in
      if ctx.is_enc then encrypt_rounds n ctx 0 halves else decrypt_rounds n ctx 0 halves

  unfoldable pub transform_halves : FfxContext → List ℕ → List ℕ → List ℕ
  transform_halves ctx left right =
      let mask = ctx.mask_last_byte in
      let halves = all_rounds ctx (left, at_last (λ b. bit_and b mask) right) in
      halves.0 ++ at_last (restore_last mask (last_byte right)) halves.1

  -- `ffx_encrypt`, which does both directions.
  unfoldable pub ffx_transform : FfxContext → List ℕ → List ℕ
  ffx_transform ctx input =
      if length input == ctx.byte_length
      then transform_halves ctx (take ctx.nb_left input) (drop ctx.nb_left input)
      else replicate (length input) 0
