-- ===== src/Extensions/Bitmap.antt =====
-- The bitmap of extensions remembers what is set.
use picotls.Prelude.{
  ℕ, zero, suc, ◌/◌, ◌%◌, ◌^◌, ◌<◌, bit_and, bit_or, ◌≡◌, refl, sym, ap, ◌∙◌, ◌≢◌, inl, inr, Bool,
  true, false, not, ◌&&◌, ◌||◌, List, [], ◌∷◌, arith, ltb, ◌==◌, if◌then◌else◌, ltb→lt, lt→ltb,
  ==→eq, Bool-cases, length, get_or, set, All,
}
use picotls.Prelude.Bits.{all_below, all_below_sound}
use picotls.Wire.{IsByte}
use picotls.Extensions.{extension_bitmap_is_set, extension_bitmap_set}

get_or-set : (xs : List ℕ) (i v : ℕ) → i < length xs → get_or (set xs i v) i 0 ≡ v
get_or-set [] i v h = absurd (omega arith)
get_or-set (x ∷ xs) zero v h = refl
get_or-set (x ∷ xs) (suc i) v h = get_or-set xs i v (omega arith)

get_or-set_other : (xs : List ℕ) (i j v : ℕ) → i ≢ j → get_or (set xs i v) j 0 ≡ get_or xs j 0
get_or-set_other [] i j v h = refl
get_or-set_other (x ∷ xs) zero zero v h = absurd (h refl)
get_or-set_other (x ∷ xs) zero (suc j) v h = refl
get_or-set_other (x ∷ xs) (suc i) zero v h = refl
get_or-set_other (x ∷ xs) (suc i) (suc j) v h = get_or-set_other xs i j v (omega arith)

length-set : (xs : List ℕ) (i v : ℕ) → length (set xs i v) ≡ length xs
length-set [] i v = refl
length-set (x ∷ xs) zero v = refl
length-set (x ∷ xs) (suc i) v = ap suc (length-set xs i v)

All-set : (xs : List ℕ) (i v : ℕ) → All IsByte xs → IsByte v → All IsByte (set xs i v)
All-set [] i v h hv = tt
All-set (x ∷ xs) zero v h hv = (hv, h.1)
All-set (x ∷ xs) (suc i) v h hv = (h.0, All-set xs i v h.1 hv)

get_or-IsByte : (xs : List ℕ) (i : ℕ) → All IsByte xs → IsByte (get_or xs i 0)
get_or-IsByte [] i h = omega arith
get_or-IsByte (x ∷ xs) zero h = h.0
get_or-IsByte (x ∷ xs) (suc i) h = get_or-IsByte xs i h.1

-- A bitmap of the source: 8 bytes.
abbrev pub IsBitmap : List ℕ → Type 0
IsBitmap bits = (length bits ≡ 8) × All IsByte bits

abbrev has_bit : ℕ → ℕ → Bool
has_bit x k = not (bit_and x (2 ^ k) == 0)

abbrev with_bit : ℕ → ℕ → ℕ
with_bit x k = bit_or x (2 ^ k)

-- In a byte: a bit that is set is there, and those that were there stay.
set_test : ℕ → ℕ → Bool
set_test k x = has_bit (with_bit x k) k && ltb (with_bit x k) 256

kept_test : ℕ → ℕ → ℕ → Bool
kept_test k j x = not (has_bit x j) || has_bit (with_bit x k) j

set_table : all_below 8 (λ k. all_below 256 (set_test k)) ≡ true
unfolding all_below set_test
set_table = refl

kept_table : all_below 8 (λ k. all_below 8 (λ j. all_below 256 (kept_test k j))) ≡ true
unfolding all_below kept_test
kept_table = refl

set_bit : (k x : ℕ) → k < 8 → IsByte x → set_test k x ≡ true
set_bit k x hk hx =
    all_below_sound 256 (set_test k) x hx
      (all_below_sound 8 (λ i. all_below 256 (set_test i)) k hk set_table)

kept_bit : (k j x : ℕ) → k < 8 → j < 8 → IsByte x → kept_test k j x ≡ true
kept_bit k j x hk hj hx = all_below_sound 256 (kept_test k j) x hx (
    all_below_sound 8 (λ i. all_below 256 (kept_test k i)) j hj
      (all_below_sound 8 (λ a. all_below 8 (λ b. all_below 256 (kept_test a b))) k hk kept_table))

both : (a b : Bool) → (a && b) ≡ true → (a ≡ true) × (b ≡ true)
both true b h = (refl, h)
both false b h = cc

implied : (a b : Bool) → (not a || b) ≡ true → a ≡ true → b ≡ true
implied true b h e = h
implied false b h e = cc

pub extension_bitmap_set-IsBitmap :
    (bits : List ℕ) (id : ℕ) → IsBitmap bits → IsBitmap (extension_bitmap_set bits id)
unfolding extension_bitmap_set set_test
extension_bitmap_set-IsBitmap bits id h = go (ltb id 64)
  where
    x : ℕ
    x = get_or bits (id / 8) 0

    byte : IsByte x
    byte = get_or-IsByte bits (id / 8) h.1

    wide : IsByte (with_bit x (id % 8))
    wide =
        let passed : set_test (id % 8) x ≡ true = set_bit (id % 8) x (omega arith) byte in
        ltb→lt (with_bit x (id % 8)) 256
          (both (has_bit (with_bit x (id % 8)) (id % 8)) (ltb (with_bit x (id % 8)) 256) passed).1

    go : (b : Bool) → IsBitmap (if b then set bits (id / 8) (with_bit x (id % 8)) else bits)
    go true = (
      length-set bits (id / 8) (with_bit x (id % 8)) ∙ h.0,
      All-set bits (id / 8) (with_bit x (id % 8)) h.1 wide,
    )
    go false = h

pub is_set-extension_bitmap_set :
    (bits : List ℕ) (id : ℕ)
    → IsBitmap bits
    → id < 64
    → extension_bitmap_is_set (extension_bitmap_set bits id) id ≡ true
unfolding extension_bitmap_is_set extension_bitmap_set set_test
is_set-extension_bitmap_set bits id h small =
    let x : ℕ = get_or bits (id / 8) 0 in
    let passed : set_test (id % 8) x ≡ true =
      set_bit (id % 8) x (omega arith) (get_or-IsByte bits (id / 8) h.1) in
    rw (lt→ltb id 64 small, get_or-set bits (id / 8) (with_bit x (id % 8)) (omega (arith, h.0)))
      (both (has_bit (with_bit x (id % 8)) (id % 8)) (ltb (with_bit x (id % 8)) 256) passed).0

pub is_set-kept :
    (bits : List ℕ) (i j : ℕ)
    → IsBitmap bits
    → extension_bitmap_is_set bits j ≡ true
    → extension_bitmap_is_set (extension_bitmap_set bits i) j ≡ true
unfolding extension_bitmap_is_set extension_bitmap_set kept_test
is_set-kept bits i j h e =
    let (small, bit) = both (ltb j 64) (has_bit (get_or bits (j / 8) 0) (j % 8)) e in
    let in_range : j < 64 = ltb→lt j 64 small in
    let x : ℕ = get_or bits (i / 8) 0 in
    elim (Bool-cases (ltb i 64)) [
      | inr off ↦ rw (off, small) bit
      | inl on ↦ elim (Bool-cases (i / 8 == j / 8)) [
        | inl same ↦
            let at : i / 8 ≡ j / 8 = ==→eq (i / 8) (j / 8) same in
            let there : get_or (set bits (i / 8) (with_bit x (i % 8))) (j / 8) 0
                ≡ with_bit x (i % 8) =
              ap (λ (n : ℕ). get_or (set bits (i / 8) (with_bit x (i % 8))) n 0) (sym at)
              ∙ get_or-set bits (i / 8) (with_bit x (i % 8)) (omega (arith, h.0, ltb→lt i 64 on)) in
            let old : has_bit x (j % 8) ≡ true =
              ap (λ (n : ℕ). has_bit (get_or bits n 0) (j % 8)) at ∙ bit in
            let kept : kept_test (i % 8) (j % 8) x ≡ true =
              kept_bit (i % 8) (j % 8) x (omega arith) (omega arith)
                (get_or-IsByte bits (i / 8) h.1) in
            rw (on, small, there)
              (implied (has_bit x (j % 8)) (has_bit (with_bit x (i % 8)) (j % 8)) kept old)
        | inr other ↦
            let apart : i / 8 ≢ j / 8 = not_eq (i / 8) (j / 8) other in
            rw (on, small, get_or-set_other bits (i / 8) (j / 8) (with_bit x (i % 8)) apart) bit
      ]
    ]
  where
    not_eq : (a b : ℕ) → (a == b) ≡ false → a ≢ b
    not_eq a b h e = ground arith
