-- ===== src/Extensions/Distinct.antt =====
-- What the decoder of extensions lets through.
use picotls.Prelude.{
  ℕ, zero, suc, ◌<◌, ◌≡◌, refl, ap, false, not, List, [], ◌∷◌, arith, length, take, replicate, All,
  Result, ok, err, ◌>>=◌, >>=-ok,
}
use mathlib.Core.Path.{subst}
use picotls.Wire.{bytes, decode16, decode_open_block, is_empty}
use picotls.Wire.Blocks.{decode_open_block-Inside}
use picotls.Code.{alert_illegal_parameter, alert_decode_error}
use picotls.Extensions.{
  Ext, extension_bitmap_is_set, extension_bitmap_set, ext_table, init_extension_bitmap,
  extension_rounds, decode_open_extensions, decode_extensions,
}
use picotls.Extensions.Bitmap.{IsBitmap, extension_bitmap_set-IsBitmap}
use picotls.Extensions.Seen.{
  Distinct, ArePermitted, Seen, Forbids, Seen-kept, Forbids-kept, seen_now, not_among,
  permitted_now, forbid-IsBitmap, forbid-Forbids, not-true, guard-ok,
}

-- The code of the block, which also notes the type in front of those before.
abbrev pub logged {ℓ} :
    {A : Type ℓ}
    → (A → ℕ → List ℕ → Result (A × List ℕ))
    → A × List ℕ
    → ℕ
    → List ℕ
    → Result ((A × List ℕ) × List ℕ)
logged block (a, log) t body = block a t body >>= (λ r. ok ((r.0, t ∷ log), r.1))

module _ {ℓ} {A : Type ℓ} (block : A → ℕ → List ℕ → Result (A × List ℕ)) (hstype : ℕ) where
  log_of : Result ((A × List ℕ) × List ℕ) → List ℕ
  log_of (err code) = []
  log_of (ok r) = r.0.1

  -- A block that is accepted has noted its type.
  note_lem :
      (a : A) (t : ℕ) (log body : List ℕ) (r : (A × List ℕ) × List ℕ)
      → decode_open_block (bytes 2) (logged block (a, log) t) body ≡ ok r
      → t ∷ log ≡ r.0.1
  unfolding log_of
  note_lem a t log body r e =
      let inside = decode_open_block-Inside (bytes 2) (logged block (a, log) t) body r.0 r.1 e in
      let (v, noted, ran) = >>=-ok _ (block a t (take inside.0 inside.1)) inside.3.2 in
      ap log_of noted

  extension_rounds-Distinct :
      (rounds : ℕ) (bits log src : List ℕ) (a a' : A) (log' rest : List ℕ)
      → IsBitmap bits
      → Seen bits log
      → Forbids hstype bits ext_table
      → Distinct log
      → ArePermitted hstype log
      → extension_rounds (logged block) rounds bits (a, log) src ≡ ok ((a', log'), rest)
      → Distinct log' × ArePermitted hstype log'
  unfolding extension_rounds log_of
  extension_rounds-Distinct zero bits log src a a' log' rest b seen forbids distinct permitted e =
      subst (λ l. Distinct l × ArePermitted hstype l) (ap log_of e) (distinct, permitted)
  extension_rounds-Distinct (suc rounds) bits log [] a a' log' rest b seen forbids distinct
        permitted e =
      subst (λ l. Distinct l × ArePermitted hstype l) (ap log_of e) (distinct, permitted)
  extension_rounds-Distinct (suc rounds) bits log (x ∷ src) a a' log' rest b seen forbids distinct
        permitted e =
      let ((t, body), e1, e0) = >>=-ok _ (decode16 (x ∷ src)) e in
      let (new, e2) =
        guard-ok (not (extension_bitmap_is_set bits t)) alert_illegal_parameter _ e1 in
      let (((a2, log2), rest2), e4, e3) =
        >>=-ok _ (decode_open_block (bytes 2) (logged block (a, log) t) body) e2 in
      let noted : t ∷ log ≡ log2 = note_lem a t log body ((a2, log2), rest2) e3 in
      let clear : extension_bitmap_is_set bits t ≡ false =
        not-true (extension_bitmap_is_set bits t) new in
      extension_rounds-Distinct rounds (extension_bitmap_set bits t) log2 rest2 a2 a' log' rest
        (extension_bitmap_set-IsBitmap bits t b)
        (subst (Seen (extension_bitmap_set bits t)) noted
          (seen_now bits t b, Seen-kept bits log t b seen))
        (Forbids-kept hstype bits ext_table t b forbids)
        (subst Distinct noted (not_among bits log t clear seen, distinct))
        (subst (ArePermitted hstype) noted
          (permitted_now hstype bits t ext_table clear forbids, permitted))
        e4

-- When the extensions of a message are accepted, whatever code runs on them, no type below 64 was
-- there twice, and no type of the table in RFC 8446, 4.2, that picotls knows was in a message which
-- must not have it.
pub decode_extensions-Distinct {ℓ} :
    {A : Type ℓ} (block : A → ℕ → List ℕ → Result (A × List ℕ)) (hstype : ℕ) (a a' : A)
    (src log : List ℕ)
    → decode_extensions (logged block) hstype (a, []) src ≡ ok (a', log)
    → Distinct log × ArePermitted hstype log
unfolding decode_extensions decode_open_extensions init_extension_bitmap
decode_extensions-Distinct {A = A} block hstype a a' src log e =
    let rounds = λ (body : List ℕ).
      extension_rounds (logged block) (length body) (init_extension_bitmap hstype) (a, []) body in
    let ((r, rest), e1, opened) = >>=-ok _ (decode_open_block (bytes 2) rounds src) e in
    let (none_left, e2) = guard-ok (is_empty rest) alert_decode_error _ e1 in
    let inside = decode_open_block-Inside (bytes 2) rounds src r rest opened in
    let body : List ℕ = take inside.0 inside.1 in
    let start : IsBitmap (replicate 8 0) = (refl, omega arith) in
    let small : All (λ (e : Ext). e.extid < 64) ext_table = omega arith in
    let found =
      extension_rounds-Distinct block hstype (length body) (init_extension_bitmap hstype) [] body a
        r.0 r.1 [] (forbid-IsBitmap hstype ext_table (replicate 8 0) start) tt
        (forbid-Forbids hstype ext_table (replicate 8 0) start small) tt tt inside.3.2 in
    subst (λ l. Distinct l × ArePermitted hstype l) (ap accepted e2) found
  where
    accepted : Result (A × List ℕ) → List ℕ
    accepted (err code) = []
    accepted (ok r) = r.1
