-- ===== src/Prelude/BitSteps.antt =====
-- The digit recursion that `|`, `&` and `^` stand for, as one equation per operation.
use Prim.Native.Nat.{ℕ, zero, suc, ◌+◌, ◌*◌, ◌/◌, ◌%◌, ◌≤◌, min, max, differ}
use Prim.Native.Nat.{bit_and, bit_or, bit_xor, digits, bitwise}
use Prim.Native.Nat.{bit_and-bitwise, bit_or-bitwise, bit_xor-bitwise}
use mathlib.Core.Path.{◌≡◌, refl}
use native.Mathlib.Omega.{arith}

module _ (last : ℕ → ℕ) (op : ℕ → ℕ → ℕ) where
  -- Any count of digits that covers the first number gives one result.
  count_irrelevant : (j k x y : ℕ) → x ≤ j → x ≤ k → digits last op j x y ≡ digits last op k x y
  count_irrelevant zero zero zero y hj hk = refl
  count_irrelevant zero (suc k) zero y hj hk = refl
  count_irrelevant (suc j) zero zero y hj hk = refl
  count_irrelevant (suc j) (suc k) zero y hj hk = refl
  count_irrelevant zero _ (suc x) y hj hk = absurd (omega arith)
  count_irrelevant (suc j) zero (suc x) y hj hk = absurd (omega arith)
  count_irrelevant (suc j) (suc k) (suc x) y hj hk =
      rw (count_irrelevant j k (suc x / 2) (y / 2) (omega arith) (omega arith))

  lowest_digit :
      (x y : ℕ)
      → bitwise last op (suc x) y ≡ bitwise last op (suc x / 2) (y / 2) * 2 + op (suc x % 2) (y % 2)
  lowest_digit x y =
      omega (arith, count_irrelevant x (suc x / 2) (suc x / 2) (y / 2) (omega arith) (omega arith))

pub bit_or_step : (x y : ℕ) → bit_or x y ≡ bit_or (x / 2) (y / 2) * 2 + max (x % 2) (y % 2)
bit_or_step zero y = simp bit_or-bitwise (omega arith)
bit_or_step (suc x) y = simp bit_or-bitwise (lowest_digit (λ d. d) max x y)

pub bit_and_step : (x y : ℕ) → bit_and x y ≡ bit_and (x / 2) (y / 2) * 2 + min (x % 2) (y % 2)
bit_and_step zero y = simp bit_and-bitwise (omega arith)
bit_and_step (suc x) y = simp bit_and-bitwise (lowest_digit (λ d. 0) min x y)

differ-zero_left : (y : ℕ) → differ 0 y ≡ y
differ-zero_left y = refl

pub bit_xor_step : (x y : ℕ) → bit_xor x y ≡ bit_xor (x / 2) (y / 2) * 2 + differ (x % 2) (y % 2)
bit_xor_step zero y = simp bit_xor-bitwise (omega arith)
bit_xor_step (suc x) y = simp bit_xor-bitwise (lowest_digit (λ d. d) differ x y)
