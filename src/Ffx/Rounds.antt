-- ===== src/Ffx/Rounds.antt =====
-- A round of decryption undoes the round of encryption with the same numbers.
use picotls.Prelude.{
  ℕ, zero, suc, ◌+◌, ◌-◌, ◌*◌, ◌%◌, ◌<◌, bit_and, bit_xor, ◌≡◌, refl, ap, ◌∙◌, false, List, [], ◌∷◌,
  arith, length,
}
use picotls.Prelude.Bits.{bit_xor-cancel}
use picotls.Ffx.{
  FfxContext, xor_target, pass_iv, ffx_one_pass, encrypt_round, decrypt_round, encrypt_rounds,
  decrypt_rounds,
}

-- The same context for the other direction.
abbrev pub reverse : FfxContext → FfxContext
reverse ctx = record ctx { is_enc = false }

pub length-xor_target :
    (mask : ℕ) (target confusion : List ℕ)
    → length (xor_target mask target confusion) ≡ length target
unfolding xor_target
length-xor_target mask [] confusion = refl
length-xor_target mask (t ∷ target) [] = refl
length-xor_target mask (t ∷ []) (c ∷ confusion) = refl
length-xor_target mask (t ∷ u ∷ target) (c ∷ confusion) =
    ap (λ (n : ℕ). suc n) (length-xor_target mask (u ∷ target) confusion)

longer :
    (mask t c : ℕ) (target confusion : List ℕ)
    → 0 < length target
    → xor_target mask (t ∷ target) (c ∷ confusion) ≡ bit_xor t c ∷ xor_target mask target confusion
unfolding xor_target
longer mask t c [] confusion h = absurd (omega arith)
longer mask t c (u ∷ target) confusion h = refl

xor_target_twice :
    (mask : ℕ) (target confusion : List ℕ)
    → xor_target mask (xor_target mask target confusion) confusion ≡ target
unfolding xor_target
xor_target_twice mask [] confusion = refl
xor_target_twice mask (t ∷ target) [] = refl
xor_target_twice mask (t ∷ []) (c ∷ confusion) =
    ap (λ (b : ℕ). b ∷ []) (bit_xor-cancel t (bit_and c mask))
xor_target_twice mask (t ∷ u ∷ target) (c ∷ confusion) =
    longer mask (bit_xor t c) c (xor_target mask (u ∷ target) confusion) confusion
      (omega (arith, length-xor_target mask (u ∷ target) confusion))
    ∙ rw (bit_xor-cancel t c, xor_target_twice mask (u ∷ target) confusion) refl

module _ (confuse : List ℕ → List ℕ) where
  -- A pass depends on its number modulo 256.
  pass_iv_mod :
      (ctx : FfxContext) (source : List ℕ) (i j : ℕ)
      → i % 256 ≡ j % 256
      → pass_iv confuse (reverse ctx) source i ≡ pass_iv confuse ctx source j
  unfolding pass_iv
  pass_iv_mod ctx source i j e = rw e refl

  undo :
      (ctx : FfxContext) (mask : ℕ) (source target : List ℕ) (i j : ℕ)
      → i % 256 ≡ j % 256
      → ffx_one_pass confuse
          (reverse ctx)
          mask
          source
          (ffx_one_pass confuse ctx mask source target j)
          i
        ≡ target
  unfolding ffx_one_pass
  undo ctx mask source target i j e =
      rw (pass_iv_mod ctx source i j e)
        (xor_target_twice mask target (confuse (pass_iv confuse ctx source j)))

  decrypt_round-encrypt_round :
      (ctx : FfxContext) (i j : ℕ) (halves : List ℕ × List ℕ)
      → i + j + 2 ≡ ctx.nb_rounds
      → decrypt_round confuse (reverse ctx) j (encrypt_round confuse ctx i halves) ≡ halves
  unfolding decrypt_round encrypt_round
  decrypt_round-encrypt_round ctx i j halves e =
      let left : List ℕ = ffx_one_pass confuse ctx 0xff halves.1 halves.0 i in
      rw
        (
          undo ctx ctx.mask_last_byte left halves.1 (ctx.nb_rounds + 256 - 1 - j) (i + 1)
              (omega arith),
          undo ctx 0xff halves.1 halves.0 (ctx.nb_rounds + 256 - 2 - j) i (omega arith),
        )
        refl

  -- The last round of the loop, set apart.
  decrypt_rounds_last :
      (n : ℕ) (ctx : FfxContext) (j : ℕ) (halves : List ℕ × List ℕ)
      → decrypt_rounds confuse (suc n) ctx j halves
        ≡ decrypt_round confuse ctx (j + 2 * n) (decrypt_rounds confuse n ctx j halves)
  unfolding decrypt_rounds
  decrypt_rounds_last zero ctx j halves =
      ap (λ (m : ℕ). decrypt_round confuse ctx m halves) (omega arith)
  decrypt_rounds_last (suc n) ctx j halves =
      decrypt_rounds_last n ctx (j + 2) (decrypt_round confuse ctx j halves)
      ∙ ap
          (λ (m : ℕ).
            decrypt_round confuse ctx m
              (decrypt_rounds confuse n ctx (j + 2) (decrypt_round confuse ctx j halves)))
          (omega arith)

  -- All rounds of decryption undo all rounds of encryption.
  pub decrypt_rounds-encrypt_rounds :
      (n : ℕ) (ctx : FfxContext) (i : ℕ) (halves : List ℕ × List ℕ)
      → i + 2 * n ≡ ctx.nb_rounds
      → decrypt_rounds confuse n (reverse ctx) 0 (encrypt_rounds confuse n ctx i halves) ≡ halves
  decrypt_rounds-encrypt_rounds zero ctx i halves e = unfold decrypt_rounds encrypt_rounds in refl
  decrypt_rounds-encrypt_rounds (suc n) ctx i halves e =
      let first : List ℕ × List ℕ = encrypt_round confuse ctx i halves in
      let peeled : encrypt_rounds confuse (suc n) ctx i halves
          ≡ encrypt_rounds confuse n ctx (i + 2) first =
        unfold encrypt_rounds in refl in
      rw peeled (
        decrypt_rounds_last n (reverse ctx) 0 (encrypt_rounds confuse n ctx (i + 2) first)
        ∙ ap (decrypt_round confuse (reverse ctx) (0 + 2 * n))
            (decrypt_rounds-encrypt_rounds n ctx (i + 2) first (omega arith))
        ∙ decrypt_round-encrypt_round ctx i (0 + 2 * n) halves (omega arith))
