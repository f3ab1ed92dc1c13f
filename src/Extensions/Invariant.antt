-- ===== src/Extensions/Invariant.antt =====
-- What the code of every extension keeps, the loop over the extensions keeps.
use picotls.Prelude.{ℕ, zero, suc, ◌≡◌, not, List, [], ◌∷◌, length, take, Result, ok, >>=-ok}
use mathlib.Core.Path.{subst}
use picotls.Code.{alert_illegal_parameter, alert_decode_error}
use picotls.Wire.{bytes, decode16, decode_open_block, is_empty}
use picotls.Wire.Blocks.{decode_open_block-Inside}
use picotls.Extensions.{
  extension_bitmap_is_set, extension_bitmap_set, init_extension_bitmap, extension_rounds,
  decode_open_extensions, decode_extensions,
}
use picotls.Extensions.Seen.{guard-ok}
use picotls.KeySchedule.Fed.{WhenOk}

module _ {ℓ κ} {A : Type ℓ} (block : A → ℕ → List ℕ → Result (A × List ℕ)) (P : A → Type κ)
    (kept : (a a' : A) (t : ℕ) (body : List ℕ) → P a → block a t body ≡ ok (a', []) → P a') where
  abbrev Holds : Result (A × List ℕ) → Type κ
  Holds r = WhenOk (λ x. P x.0) r

  extension_rounds-kept :
      (rounds : ℕ) (bits : List ℕ) (a a' : A) (src rest : List ℕ)
      → P a
      → extension_rounds block rounds bits a src ≡ ok (a', rest)
      → P a'
  unfolding extension_rounds
  extension_rounds-kept zero bits a a' src rest h e = subst Holds e h
  extension_rounds-kept (suc rounds) bits a a' [] rest h e = subst Holds e h
  extension_rounds-kept (suc rounds) bits a a' (b ∷ src) rest h e =
      let ((t, body), e1, e0) = >>=-ok _ (decode16 (b ∷ src)) e in
      let (new, e2) =
        guard-ok (not (extension_bitmap_is_set bits t)) alert_illegal_parameter _ e1 in
      let ((a2, rest2), e4, e3) = >>=-ok _ (decode_open_block (bytes 2) (block a t) body) e2 in
      let inside = decode_open_block-Inside (bytes 2) (block a t) body a2 rest2 e3 in
      extension_rounds-kept rounds (extension_bitmap_set bits t) a2 a' rest2 rest
        (kept a a2 t (take inside.0 inside.1) h inside.3.2) e4

  pub decode_extensions-kept :
      (hstype : ℕ) (a a' : A) (src : List ℕ)
      → P a
      → decode_extensions block hstype a src ≡ ok a'
      → P a'
  unfolding decode_extensions decode_open_extensions
  decode_extensions-kept hstype a a' src h e =
      let rounds = λ (body : List ℕ).
        extension_rounds block (length body) (init_extension_bitmap hstype) a body in
      let ((r, rest), e1, opened) = >>=-ok _ (decode_open_block (bytes 2) rounds src) e in
      let (none_left, e2) = guard-ok (is_empty rest) alert_decode_error _ e1 in
      let inside = decode_open_block-Inside (bytes 2) rounds src r rest opened in
      let body : List ℕ = take inside.0 inside.1 in
      subst (WhenOk P) e2 (
        extension_rounds-kept (length body) (init_extension_bitmap hstype) a r body [] h inside.3.2)
