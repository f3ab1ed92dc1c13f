-- ===== src/Prelude/Bits.antt =====
-- Laws of `|`, `&` and `^` that the components use, by induction on a count of digits or, for one
-- byte, by a table.
use Prim.Native.Nat.{ℕ, zero, suc, ◌+◌, ◌*◌, ◌/◌, ◌%◌, ◌^◌, ◌≤◌, ◌<◌, differ}
use Prim.Native.Nat.{bit_or, bit_xor}
use mathlib.Core.Path.{◌≡◌, refl, ap}
use mathlib.Core.Bool.{Bool, true, ◌&&◌}
use native.Mathlib.Omega.{arith}
use native.Mathlib.Nat.{pow-suc}
use picotls.Prelude.Tests.{◌==◌, ==→eq}
use picotls.Prelude.BitSteps.{bit_or_step, bit_xor_step}

-- Two numbers below 2 are equal, or one is 0 and the other 1.
differ_digits : (x y : ℕ) → (differ (x % 2) (y % 2) ≡ (x % 2 + y % 2) % 2)
differ_digits x y = go (x % 2) (y % 2) (omega arith) (omega arith)
  where
    go : (a b : ℕ) → a < 2 → b < 2 → differ a b ≡ (a + b) % 2
    go zero b ha hb = omega arith
    go (suc zero) zero ha hb = refl
    go (suc zero) (suc zero) ha hb = refl
    go (suc zero) (suc (suc b)) ha hb = absurd (omega arith)
    go (suc (suc a)) b ha hb = absurd (omega arith)

pub xor_step : (x y : ℕ) → bit_xor x y ≡ bit_xor (x / 2) (y / 2) * 2 + (x + y) % 2
xor_step x y = omega (arith, bit_xor_step x y, differ_digits x y)

xor-zero_zero : bit_xor 0 0 ≡ 0
xor-zero_zero = refl

xor_cancel_count : (n x y : ℕ) → x ≤ n → y ≤ n → bit_xor (bit_xor x y) y ≡ x
xor_cancel_count zero zero zero hx hy = refl
xor_cancel_count zero zero (suc y) hx hy = absurd (omega arith)
xor_cancel_count zero (suc x) y hx hy = absurd (omega arith)
xor_cancel_count (suc n) x y hx hy =
    let lower : bit_xor (bit_xor x y / 2) (y / 2) ≡ x / 2 =
      rw (half x y) (xor_cancel_count n (x / 2) (y / 2) (omega arith) (omega arith)) in
    omega (arith, xor_step x y, xor_step (bit_xor x y) y, lower)
  where
    half : (a b : ℕ) → bit_xor a b / 2 ≡ bit_xor (a / 2) (b / 2)
    half a b = omega (arith, xor_step a b)

-- `(x ^ y) ^ y` is `x`.
pub bit_xor-cancel : (x y : ℕ) → bit_xor (bit_xor x y) y ≡ x
bit_xor-cancel x y = xor_cancel_count (x + y) x y (omega arith) (omega arith)

xor_zero_count : (n x y : ℕ) → x ≤ n → y ≤ n → bit_xor x y ≡ 0 → x ≡ y
xor_zero_count zero x y hx hy e = omega arith
xor_zero_count (suc n) x y hx hy e = omega (
  arith,
  xor_step x y,
  xor_zero_count n (x / 2) (y / 2) (omega arith) (omega arith) (omega (arith, xor_step x y)),
)

pub eq_of_xor_zero : (x y : ℕ) → bit_xor x y ≡ 0 → x ≡ y
eq_of_xor_zero x y e = xor_zero_count (x + y) x y (omega arith) (omega arith) e

xor_self_count : (n x : ℕ) → x ≤ n → bit_xor x x ≡ 0
xor_self_count zero zero h = refl
xor_self_count zero (suc x) h = absurd (omega arith)
xor_self_count (suc n) x h = omega (arith, xor_step x x, xor_self_count n (x / 2) (omega arith))

pub bit_xor_self : (x : ℕ) → bit_xor x x ≡ 0
bit_xor_self x = xor_self_count x x (omega arith)

xor_comm_count : (n x y : ℕ) → x ≤ n → y ≤ n → bit_xor x y ≡ bit_xor y x
xor_comm_count zero zero zero hx hy = refl
xor_comm_count zero zero (suc y) hx hy = absurd (omega arith)
xor_comm_count zero (suc x) y hx hy = absurd (omega arith)
xor_comm_count (suc n) x y hx hy = omega (
  arith,
  xor_step x y,
  xor_step y x,
  xor_comm_count n (x / 2) (y / 2) (omega arith) (omega arith),
)

pub bit_xor_comm : (x y : ℕ) → bit_xor x y ≡ bit_xor y x
bit_xor_comm x y = xor_comm_count (x + y) x y (omega arith) (omega arith)

or_zero_count : (n x y : ℕ) → x ≤ n → y ≤ n → bit_or x y ≡ 0 → (x ≡ 0) × (y ≡ 0)
or_zero_count zero x y hx hy e = (omega arith, omega arith)
or_zero_count (suc n) x y hx hy e =
    let lower : (x / 2 ≡ 0) × (y / 2 ≡ 0) =
      or_zero_count n (x / 2) (y / 2) (omega arith) (omega arith)
        (omega (arith, bit_or_step x y)) in
    (omega (arith, bit_or_step x y, lower), omega (arith, bit_or_step x y, lower))

pub zero_of_or_zero : (x y : ℕ) → bit_or x y ≡ 0 → (x ≡ 0) × (y ≡ 0)
zero_of_or_zero x y e = or_zero_count (x + y) x y (omega arith) (omega arith) e

or_zero_right_count : (n x : ℕ) → x ≤ n → bit_or x 0 ≡ x
or_zero_right_count zero zero h = refl
or_zero_right_count zero (suc x) h = absurd (omega arith)
or_zero_right_count (suc n) x h =
    omega (arith, bit_or_step x 0, or_zero_right_count n (x / 2) (omega arith))

pub bit_or-zero : (x : ℕ) → bit_or x 0 ≡ x
bit_or-zero x = or_zero_right_count x x (omega arith)

pub double_power : (q k : ℕ) → q * 2 ^ suc k ≡ 2 * (q * 2 ^ k)
double_power q k = omega (arith, ap (λ (t : ℕ). q * t) (pow-suc 2 k))

-- `(q << k) | r` is a sum when `r` has at most `k` binary digits.
pub bit_or_disjoint : (k q r : ℕ) → r < 2 ^ k → bit_or (q * 2 ^ k) r ≡ q * 2 ^ k + r
bit_or_disjoint zero q r h = ground (arith, bit_or-zero q)
bit_or_disjoint (suc k) q r h = ground (
  arith,
  double_power q k,
  bit_or_step (q * 2 ^ suc k) r,
  bit_or_disjoint k q (r / 2) (omega arith),
)

-- `t | r` is a sum when `t` ends in `k` zero digits and `r` fits them.
pub bit_or_add : (k q t r : ℕ) → t ≡ q * 2 ^ k → r < 2 ^ k → bit_or t r ≡ t + r
bit_or_add k q t r e h = rw e (bit_or_disjoint k q r h)

-- Over a small range, check every value by evaluation.
unfoldable pub all_below : ℕ → (ℕ → Bool) → Bool
all_below zero test = true
all_below (suc bound) test = all_below bound test && test bound

pub all_below_sound :
    (bound : ℕ) (test : ℕ → Bool) (value : ℕ)
    → value < bound
    → all_below bound test ≡ true
    → test value ≡ true
unfolding all_below
all_below_sound zero test value in_range passed = absurd (omega arith)
all_below_sound (suc bound) test value in_range passed =
    ground (arith, all_below_sound bound test value)

-- Two functions that agree on a table agree below its length.
pub table_eq :
    (n : ℕ) (f g : ℕ → ℕ) → all_below n (λ x. f x == g x) ≡ true → (x : ℕ) → x < n → f x ≡ g x
table_eq n f g h x lt = ==→eq (f x) (g x) (all_below_sound n (λ x. f x == g x) x lt h)
