-- ===== src/Finished/MemEqual.antt =====
-- The comparison in constant time decides equality.
use picotls.Prelude.{
  ℕ, bit_or, bit_xor, ◌≡◌, ◌≢◌, refl, sym, ap, ◌∙◌, true, false, some, List, [], ◌∷◌, ◌==◌, length,
  arith, Bool-cases, inl, inr,
}
use mathlib.Core.Option
use mathlib.Core.Path.{ap₂}
use picotls.Prelude.Bits.{eq_of_xor_zero, bit_xor_self, zero_of_or_zero, bit_or-zero}
use picotls.Prelude.Compare.{same_bytes, same_bytes_eq, same_bytes_self, true-false}
use picotls.Finished.{or_differences, mem_equal}

or_differences_self : (xs : List ℕ) (t : ℕ) → or_differences (length xs) t xs xs ≡ some t
unfolding or_differences
or_differences_self [] t = refl
or_differences_self (x ∷ xs) t =
    ap (λ (u : ℕ). or_differences (length xs) (bit_or t u) xs xs) (bit_xor_self x)
    ∙ ap (λ (u : ℕ). or_differences (length xs) u xs xs) (bit_or-zero t)
    ∙ or_differences_self xs t

or_differences_zero :
    (xs ys : List ℕ) (t : ℕ)
    → length ys ≡ length xs
    → (u : ℕ) × (or_differences (length xs) t xs ys ≡ some u) × (u ≡ 0 → (t ≡ 0) × (xs ≡ ys))
unfolding or_differences
or_differences_zero [] [] t h = (t, refl, λ e. (e, refl))
or_differences_zero [] (y ∷ ys) t h = absurd (omega (arith, h))
or_differences_zero (x ∷ xs) [] t h = absurd (omega (arith, h))
or_differences_zero (x ∷ xs) (y ∷ ys) t h =
    let (u, e, k) = or_differences_zero xs ys (bit_or t (bit_xor x y)) (omega (arith, h)) in
    (
      u,
      e,
      λ z.
          let (none_yet, same) = k z in
          let (start, equal) = zero_of_or_zero t (bit_xor x y) none_yet in
          (start, ap₂ (λ b bs. b ∷ bs) (eq_of_xor_zero x y equal) same),
    )

mem_equal_self : (xs : List ℕ) → mem_equal xs xs (length xs) ≡ some true
unfolding mem_equal
mem_equal_self xs = ap (Option.map (λ t. t == 0)) (or_differences_self xs 0)

mem_equal_differ :
    (xs ys : List ℕ) → length ys ≡ length xs → xs ≢ ys → mem_equal xs ys (length xs) ≡ some false
unfolding mem_equal
mem_equal_differ xs ys h differ =
    let (u, e, k) = or_differences_zero xs ys 0 h in
    ap (Option.map (λ t. t == 0)) e ∙ ap some (nonzero u (λ z. differ (k z).1))
  where
    nonzero : (n : ℕ) → n ≢ 0 → (n == 0) ≡ false
    nonzero n h = ground arith

-- On as many bytes as both have.
pub mem_equal-same_bytes :
    (xs ys : List ℕ) → length ys ≡ length xs → mem_equal xs ys (length xs) ≡ some (same_bytes xs ys)
mem_equal-same_bytes xs ys h = elim (Bool-cases (same_bytes xs ys)) [
  | inl equal ↦
      ap (λ zs. mem_equal xs zs (length xs)) (sym (same_bytes_eq xs ys equal))
      ∙ mem_equal_self xs
      ∙ ap some (sym equal)
  | inr other ↦
      mem_equal_differ xs ys h
        (λ e. true-false (sym (ap (same_bytes xs) (sym e) ∙ same_bytes_self xs) ∙ other))
      ∙ ap some (sym other)
]
