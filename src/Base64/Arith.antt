-- ===== src/Base64/Arith.antt =====
-- The bit operations of a cell as arithmetic on bytes.
use picotls.Prelude.{
  ℕ, ◌+◌, ◌*◌, ◌/◌, ◌%◌, ◌^◌, ◌<◌, bit_and, bit_or, ◌≡◌, refl, sym, ap, ◌∙◌, Bool, true, false, not,
  Option, none, some, arith, ◌==◌, ==→eq,
}
use picotls.Prelude.Bits.{table_eq, all_below, bit_or_add, all_below_sound}
use picotls.Base64.{letter, char_value, shift_v, is_blank}

low_two_table : all_below 256 (λ b. bit_and b 3 == b % 4) ≡ true
unfolding all_below
low_two_table = refl

pub low_two : (b : ℕ) → b < 256 → bit_and b 3 ≡ b % 4
low_two = table_eq 256 (λ b. bit_and b 3) (λ b. b % 4) low_two_table

low_four_table : all_below 256 (λ b. bit_and b 15 == b % 16) ≡ true
unfolding all_below
low_four_table = refl

pub low_four : (b : ℕ) → b < 256 → bit_and b 15 ≡ b % 16
low_four = table_eq 256 (λ b. bit_and b 15) (λ b. b % 16) low_four_table

low_six_table : all_below 256 (λ b. bit_and b 63 == b % 64) ≡ true
unfolding all_below
low_six_table = refl

pub low_six : (b : ℕ) → b < 256 → bit_and b 63 ≡ b % 64
low_six = table_eq 256 (λ b. bit_and b 63) (λ b. b % 64) low_six_table

-- The two sextets that straddle bytes.
pub second_sextet :
    (d0 d1 : ℕ)
    → d0 < 256
    → d1 < 256
    → bit_or (bit_and d0 3 * 2 ^ 4) (d1 / 2 ^ 4) ≡ d0 % 4 * 16 + d1 / 16
second_sextet d0 d1 h0 h1 =
    rw (low_two d0 h0) (bit_or_add 4 (d0 % 4) (d0 % 4 * 2 ^ 4) (d1 / 2 ^ 4) refl (omega arith))

pub third_sextet :
    (d1 d2 : ℕ)
    → d1 < 256
    → d2 < 256
    → bit_or (bit_and d1 15 * 2 ^ 2) (d2 / 2 ^ 6) ≡ d1 % 16 * 4 + d2 / 64
third_sextet d1 d2 h1 h2 =
    rw (low_four d1 h1) (bit_or_add 2 (d1 % 16) (d1 % 16 * 2 ^ 2) (d2 / 2 ^ 6) refl (omega arith))

pub push_sextet : (v x : ℕ) → v < 2 ^ 26 → x < 64 → bit_or (shift_v v 6) x ≡ v * 64 + x
push_sextet v x hv hx = bit_or_add 6 v (v * 2 ^ 6 % 2 ^ 32) x (omega arith) hx ∙ omega arith

-- A letter is read back as its index.
is_index : ℕ → Option ℕ → Bool
is_index n none = false
is_index n (some m) = n == m

is_index-eq : (n : ℕ) (o : Option ℕ) → is_index n o ≡ true → o ≡ some n
unfolding is_index
is_index-eq n none h = cc
is_index-eq n (some m) h = ap some (sym (==→eq n m h))

letter_table : all_below 64 (λ n. is_index n (char_value (letter n))) ≡ true
unfolding all_below is_index char_value letter
letter_table = refl

pub char_value-letter : (n : ℕ) → n < 64 → char_value (letter n) ≡ some n
char_value-letter n h =
    is_index-eq n (char_value (letter n))
      (all_below_sound 64 (λ n. is_index n (char_value (letter n))) n h letter_table)

blank_table : all_below 64 (λ n. not (is_blank (letter n))) ≡ true
unfolding all_below letter
blank_table = refl

pub letter-not_blank : (n : ℕ) → n < 64 → is_blank (letter n) ≡ false
letter-not_blank n h =
    flip (is_blank (letter n)) (all_below_sound 64 (λ n. not (is_blank (letter n))) n h blank_table)
  where
    flip : (b : Bool) → not b ≡ true → b ≡ false
    flip true e = cc
    flip false e = refl
