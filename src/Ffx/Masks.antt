-- ===== src/Ffx/Masks.antt =====
-- The masks of the last byte: what they keep, and that passes keep what is masked.
use picotls.Prelude.{
  ℕ, zero, suc, ◌+◌, ◌*◌, ◌/◌, ◌%◌, ◌^◌, ◌≤◌, ◌<◌, bit_and, bit_xor, ◌≡◌, refl, sym, ap, ◌∙◌, true,
  arith, ◌==◌, ==→eq, get_or,
}
use picotls.Prelude.Bits.{all_below, all_below_sound, bit_or_add, xor_step, double_power}
use picotls.Wire.{IsByte}
use picotls.Ffx.{last_byte_mask, outside, restore_last}
use native.Mathlib.Nat.{pow-suc, div-add-mod', mul-mod_left, mod-lt, one-le-pow}

abbrev pub mask_at : ℕ → ℕ
mask_at k = get_or last_byte_mask k 0

inside_table :
    all_below 8 (λ k. all_below 256 (λ b. bit_and b (mask_at k) == b / 2 ^ k * 2 ^ k)) ≡ true
unfolding all_below last_byte_mask
inside_table = refl

outside_table : all_below 8 (λ k. all_below 256 (λ b. outside (mask_at k) b == b % 2 ^ k)) ≡ true
unfolding all_below last_byte_mask
outside_table = refl

-- Mask `k` keeps all but the lowest `k` bits of a byte.
pub inside_eq : (k b : ℕ) → k < 8 → IsByte b → bit_and b (mask_at k) ≡ b / 2 ^ k * 2 ^ k
inside_eq k b hk hb = ==→eq _ _ (
    all_below_sound 256 (λ c. bit_and c (mask_at k) == c / 2 ^ k * 2 ^ k) b hb
      (all_below_sound 8 (λ j. all_below 256 (λ c. bit_and c (mask_at j) == c / 2 ^ j * 2 ^ j)) k hk
        inside_table))

pub outside_eq : (k b : ℕ) → k < 8 → IsByte b → outside (mask_at k) b ≡ b % 2 ^ k
outside_eq k b hk hb = ==→eq _ _ (
    all_below_sound 256 (λ c. outside (mask_at k) c == c % 2 ^ k) b hb
      (all_below_sound 8 (λ j. all_below 256 (λ c. outside (mask_at j) c == c % 2 ^ j)) k hk
        outside_table))

-- Exclusive or of numbers that end in `k` zero digits.
pub xor_scaled : (k a b : ℕ) → bit_xor (a * 2 ^ k) (b * 2 ^ k) ≡ bit_xor a b * 2 ^ k
xor_scaled zero a b = rw (times_one a, times_one b, times_one (bit_xor a b)) refl
  where
    times_one : (n : ℕ) → n * 2 ^ 0 ≡ n
    times_one n = omega arith
xor_scaled (suc k) a b =
    let halves : bit_xor (a * 2 ^ suc k / 2) (b * 2 ^ suc k / 2) ≡ bit_xor (a * 2 ^ k) (b * 2 ^ k) =
      rw (half a, half b) refl in
    omega (
      arith,
      xor_step (a * 2 ^ suc k) (b * 2 ^ suc k),
      halves,
      xor_scaled k a b,
      double_power a k,
      double_power b k,
      double_power (bit_xor a b) k,
    )
  where
    half : (n : ℕ) → n * 2 ^ suc k / 2 ≡ n * 2 ^ k
    half n = omega (arith, double_power n k)

pub xor_below : (k x y : ℕ) → x < 2 ^ k → y < 2 ^ k → bit_xor x y < 2 ^ k
xor_below zero x y hx hy =
    let (ex, ey) : (x ≡ 0) × (y ≡ 0) = (omega arith, omega arith) in rw (ex, ey) (omega arith)
xor_below (suc k) x y hx hy = omega (
  arith,
  xor_step x y,
  pow-suc 2 k,
  xor_below k (x / 2) (y / 2) (omega (arith, pow-suc 2 k)) (omega (arith, pow-suc 2 k)),
)

-- A byte of which mask `k` keeps everything.
abbrev pub IsMasked : ℕ → ℕ → Type 0
IsMasked k b = IsByte b × (b % 2 ^ k ≡ 0)

whole : (k b : ℕ) → b % 2 ^ k ≡ 0 → b ≡ b / 2 ^ k * 2 ^ k
whole k b h = omega (arith, div-add-mod' b (2 ^ k))

-- The last byte of a pass stays masked.
pub xor-IsMasked :
    (k t c : ℕ) → k < 8 → IsMasked k t → IsByte c → IsMasked k (bit_xor t (bit_and c (mask_at k)))
xor-IsMasked k t c hk ht hc =
    let top : c / 2 ^ k * 2 ^ k ≤ c = omega (arith, div-add-mod' c (2 ^ k)) in
    rw (inside_eq k c hk hc) (
      xor_below 8 t (c / 2 ^ k * 2 ^ k) ht.0 (omega arith),
      ap (λ (n : ℕ). bit_xor n (c / 2 ^ k * 2 ^ k) % 2 ^ k) (whole k t ht.1)
          ∙ ap (λ (n : ℕ). n % 2 ^ k) (xor_scaled k (t / 2 ^ k) (c / 2 ^ k))
          ∙ mul-mod_left (bit_xor (t / 2 ^ k) (c / 2 ^ k)) (2 ^ k),
    )

-- What `restore_last` does to a masked byte `b`: the bits inside from `b`, the others from `saved`.
pub restore_eq :
    (k b saved : ℕ)
    → k < 8
    → IsMasked k b
    → IsByte saved
    → restore_last (mask_at k) saved b ≡ b + saved % 2 ^ k
unfolding restore_last
restore_eq k b saved hk hb hs =
    rw (inside_eq k b hk hb.0, outside_eq k saved hk hs)
      (bit_or_add k (b / 2 ^ k) (b / 2 ^ k * 2 ^ k) (saved % 2 ^ k) refl
          (mod-lt saved (one-le-pow k 2 (omega arith)))
        ∙ ap (λ (n : ℕ). n + saved % 2 ^ k) (sym (whole k b hb.1)))

-- Masking a byte leaves a masked one; on a masked byte with something put back, it takes that off.
pub inside-IsMasked : (k b : ℕ) → k < 8 → IsByte b → IsMasked k (bit_and b (mask_at k))
inside-IsMasked k b hk hb =
    rw (inside_eq k b hk hb)
      (omega (arith, div-add-mod' b (2 ^ k)), mul-mod_left (b / 2 ^ k) (2 ^ k))

sum_parts :
    (k b r : ℕ)
    → k < 8
    → IsByte b
    → b % 2 ^ k ≡ 0
    → r < 2 ^ k
    → IsByte (b + r) × ((b + r) / 2 ^ k * 2 ^ k ≡ b) × ((b + r) % 2 ^ k ≡ r)
sum_parts zero b r hk hb e hr = (omega arith, omega arith, omega arith)
sum_parts (suc zero) b r hk hb e hr = (omega arith, omega arith, omega arith)
sum_parts (suc (suc zero)) b r hk hb e hr = (omega arith, omega arith, omega arith)
sum_parts (suc (suc (suc zero))) b r hk hb e hr = (omega arith, omega arith, omega arith)
sum_parts (suc (suc (suc (suc zero)))) b r hk hb e hr = (omega arith, omega arith, omega arith)
sum_parts (suc (suc (suc (suc (suc zero))))) b r hk hb e hr =
    (omega arith, omega arith, omega arith)
sum_parts (suc (suc (suc (suc (suc (suc zero)))))) b r hk hb e hr =
    (omega arith, omega arith, omega arith)
sum_parts (suc (suc (suc (suc (suc (suc (suc zero))))))) b r hk hb e hr =
    (omega arith, omega arith, omega arith)
sum_parts (suc (suc (suc (suc (suc (suc (suc (suc k)))))))) b r hk hb e hr = absurd (omega arith)

-- The parts of a sum of a masked byte and less than `2 ^ k`.
pub masked_parts :
    (k b r : ℕ)
    → k < 8
    → IsMasked k b
    → r < 2 ^ k
    → IsByte (b + r) × (bit_and (b + r) (mask_at k) ≡ b) × (outside (mask_at k) (b + r) ≡ r)
masked_parts k b r hk hb hr =
    let (byte, high, low) = sum_parts k b r hk hb.0 hb.1 hr in
    (byte, inside_eq k (b + r) hk byte ∙ high, outside_eq k (b + r) hk byte ∙ low)

-- Under mask `k`: what is put back is masked off again, and a byte that is taken apart is put
-- together, whatever masked byte `b` its outside went through.
pub masked_off :
    (k m b saved : ℕ)
    → k < 8
    → m ≡ mask_at k
    → IsMasked k b
    → IsByte saved
    → bit_and (restore_last m saved b) m ≡ b
masked_off k m b saved hk e hb hs =
    rw (e, restore_eq k b saved hk hb hs)
      (masked_parts k b (saved % 2 ^ k) hk hb (mod-lt saved (one-le-pow k 2 (omega arith)))).1

pub put_back :
    (k m b saved : ℕ)
    → k < 8
    → m ≡ mask_at k
    → IsMasked k b
    → IsByte saved
    → restore_last m (restore_last m saved b) (bit_and saved m) ≡ saved
put_back k m b saved hk e hb hs =
    let low : saved % 2 ^ k < 2 ^ k = mod-lt saved (one-le-pow k 2 (omega arith)) in
    let parts = masked_parts k b (saved % 2 ^ k) hk hb low in
    let all = inside-IsMasked k saved hk hs in
    rw
      (
        e,
        restore_eq k b saved hk hb hs,
        restore_eq k (bit_and saved (mask_at k)) (b + saved % 2 ^ k) hk all parts.0,
      )
      (omega (
        arith,
        outside_eq k (b + saved % 2 ^ k) hk parts.0,
        parts.2,
        inside_eq k saved hk hs,
        div-add-mod' saved (2 ^ k),
      ))

-- The bits outside the mask come from the byte that is put back.
pub low_of_restored :
    (k m b saved : ℕ)
    → k < 8
    → m ≡ mask_at k
    → IsMasked k b
    → IsByte saved
    → restore_last m saved b % 2 ^ k ≡ saved % 2 ^ k
low_of_restored k m b saved hk e hb hs =
    let low : saved % 2 ^ k < 2 ^ k = mod-lt saved (one-le-pow k 2 (omega arith)) in
    let parts = masked_parts k b (saved % 2 ^ k) hk hb low in
    rw (e, restore_eq k b saved hk hb hs)
      (sym (outside_eq k (b + saved % 2 ^ k) hk parts.0) ∙ parts.2)
