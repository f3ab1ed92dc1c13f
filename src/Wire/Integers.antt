-- ===== src/Wire/Integers.antt =====
-- The fixed-width integers and the QUIC integers read back what was written.
use picotls.Prelude.{
  ℕ, zero, suc, ◌+◌, ◌-◌, ◌*◌, ◌/◌, ◌%◌, ◌^◌, ◌≤◌, ◌<◌, bit_and, bit_or, ◌≡◌, refl, ap, ◌∙◌, List,
  ◌∷◌, ◌++◌, length, All, ok, arith, ltb, leb, ltb→le, le→ltb, ◌==◌, true, false, sym,
  length-append, Bool-cases, inl, inr,
}
use picotls.Prelude.Bits.{bit_or_add, table_eq, all_below}
use picotls.Wire.{
  IsByte, shift_in, ntoh16, ntoh24, ntoh32, ntoh64, decode64, push64, decode16, decode24, decode32,
  push16, push24, push32, read_bytes, decode_quicint, low_bytes, encode_quicint,
}
use native.Mathlib.Nat.{
  pow-suc, div-add-mod, mod-lt, mod-eq_of_lt, add-mul-mod_self_right, one-le-pow, mul-le-mul_left,
  mul-le-mul_right,
}

pub ntoh16-eq : (b0 b1 : ℕ) → b1 < 256 → ntoh16 b0 b1 ≡ b0 * 256 + b1
unfolding ntoh16
ntoh16-eq b0 b1 h = bit_or_add 8 b0 (b0 * 2 ^ 8) b1 (omega arith) h

pub ntoh24-eq : (b0 b1 b2 : ℕ) → b1 < 256 → b2 < 256 → ntoh24 b0 b1 b2 ≡ b0 * 65536 + b1 * 256 + b2
unfolding ntoh24
ntoh24-eq b0 b1 b2 h1 h2 =
    rw (bit_or_add 16 b0 (b0 * 2 ^ 16) (b1 * 2 ^ 8) (omega arith) (omega arith)) (
      rw (bit_or_add 8 (b0 * 256 + b1) (b0 * 2 ^ 16 + b1 * 2 ^ 8) b2 (omega arith) h2)
        (omega arith))

ntoh32-eq :
    (b0 b1 b2 b3 : ℕ)
    → b1 < 256
    → b2 < 256
    → b3 < 256
    → ntoh32 b0 b1 b2 b3 ≡ b0 * 2 ^ 24 + b1 * 65536 + b2 * 256 + b3
unfolding ntoh32
ntoh32-eq b0 b1 b2 b3 h1 h2 h3 =
    rw (bit_or_add 24 b0 (b0 * 2 ^ 24) (b1 * 2 ^ 16) (omega arith) (omega arith)) (
      rw
        (bit_or_add 16 (b0 * 256 + b1) (b0 * 2 ^ 24 + b1 * 2 ^ 16) (b2 * 2 ^ 8) (omega arith)
          (omega arith))
        (rw
          (bit_or_add 8 (b0 * 65536 + b1 * 256 + b2) (b0 * 2 ^ 24 + b1 * 2 ^ 16 + b2 * 2 ^ 8) b3
            (omega arith) h3)
          (omega arith)))

-- The bytes are joined from the top; `a` is the value of those in front of byte `b`, at bit `n`.
abbrev joined : ℕ → ℕ → ℕ → ℕ
joined a b k = (a * 256 + b) * 2 ^ k

join : (k n a b : ℕ) → 2 ^ n ≡ 2 ^ k * 256 → b < 256 → bit_or (a * 2 ^ n) (b * 2 ^ k) ≡ joined a b k
join k n a b wide h =
    bit_or_add n a (a * 2 ^ n) (b * 2 ^ k) refl
      (omega (arith, wide, mul-le-mul_right (2 ^ k) h, one-le-pow k 2 (omega arith)))
    ∙ omega (arith, ap (λ (t : ℕ). a * t) wide)

abbrev number64 : ℕ → ℕ → ℕ → ℕ → ℕ → ℕ → ℕ → ℕ → ℕ
number64 b0 b1 b2 b3 b4 b5 b6 b7 =
    ((((((b0 * 256 + b1) * 256 + b2) * 256 + b3) * 256 + b4) * 256 + b5) * 256 + b6) * 256 + b7

ntoh64-eq :
    (b0 b1 b2 b3 b4 b5 b6 b7 : ℕ)
    → b1 < 256
    → b2 < 256
    → b3 < 256
    → b4 < 256
    → b5 < 256
    → b6 < 256
    → b7 < 256
    → ntoh64 b0 b1 b2 b3 b4 b5 b6 b7 ≡ number64 b0 b1 b2 b3 b4 b5 b6 b7
unfolding ntoh64
ntoh64-eq b0 b1 b2 b3 b4 b5 b6 b7 h1 h2 h3 h4 h5 h6 h7 =
    let a1 : ℕ = b0 * 256 + b1 in
    let a2 : ℕ = a1 * 256 + b2 in
    let a3 : ℕ = a2 * 256 + b3 in
    let a4 : ℕ = a3 * 256 + b4 in
    let a5 : ℕ = a4 * 256 + b5 in
    rw (join 48 56 b0 b1 refl h1) (
      rw (join 40 48 a1 b2 refl h2) (
        rw (join 32 40 a2 b3 refl h3) (
          rw (join 24 32 a3 b4 refl h4) (
            rw (join 16 24 a4 b5 refl h5) (
              rw (join 8 16 a5 b6 refl h6)
                (bit_or_add 8 (a5 * 256 + b6) (joined a5 b6 8) b7 refl h7))))))

-- An integer is written modulo its width, and read back by the reader of that width, whatever
-- follows it: 16, 24, 32 and 64 bits.
pub decode-push_mod :
    (v : ℕ) (rest : List ℕ)
    → (decode16 (push16 v ++ rest) ≡ ok (v % 2 ^ 16, rest))
      × (decode24 (push24 v ++ rest) ≡ ok (v % 2 ^ 24, rest))
      × (decode32 (push32 v ++ rest) ≡ ok (v % 2 ^ 32, rest))
      × (decode64 (push64 v ++ rest) ≡ ok (v % 2 ^ 64, rest))
unfolding decode16 push16 decode24 push24 decode32 push32 decode64 push64
decode-push_mod v rest = (
  ap (λ t. ok (t, rest)) (omega (arith, ntoh16-eq (v / 2 ^ 8 % 256) (v % 256))),
  ap (λ t. ok (t, rest)) (omega (arith, ntoh24-eq (v / 2 ^ 16 % 256) (v / 2 ^ 8 % 256) (v % 256))),
  ap (λ t. ok (t, rest))
      (omega (arith, ntoh32-eq (v / 2 ^ 24 % 256) (v / 2 ^ 16 % 256) (v / 2 ^ 8 % 256) (v % 256))),
  ap (λ t. ok (t, rest))
      (omega (
        arith,
        ntoh64-eq (v / 2 ^ 56 % 256) (v / 2 ^ 48 % 256) (v / 2 ^ 40 % 256) (v / 2 ^ 32 % 256)
            (v / 2 ^ 24 % 256) (v / 2 ^ 16 % 256) (v / 2 ^ 8 % 256) (v % 256),
      )),
)

-- An integer that fits its width is itself.
pub decode-push :
    (v : ℕ) (rest : List ℕ)
    → (v < 2 ^ 16 → decode16 (push16 v ++ rest) ≡ ok (v, rest))
      × (v < 2 ^ 24 → decode24 (push24 v ++ rest) ≡ ok (v, rest))
      × (v < 2 ^ 32 → decode32 (push32 v ++ rest) ≡ ok (v, rest))
      × (v < 2 ^ 64 → decode64 (push64 v ++ rest) ≡ ok (v, rest))
decode-push v rest =
    let p = decode-push_mod v rest in
    (
      λ h. p.0 ∙ ap (λ t. ok (t, rest)) (mod-eq_of_lt h),
      λ h. p.1 ∙ ap (λ t. ok (t, rest)) (mod-eq_of_lt h),
      λ h. p.2 ∙ ap (λ t. ok (t, rest)) (mod-eq_of_lt h),
      λ h. p.3 ∙ ap (λ t. ok (t, rest)) (mod-eq_of_lt h),
    )

shift_in-eq : (x b : ℕ) → x < 2 ^ 56 → b < 256 → shift_in x b ≡ x * 256 + b
unfolding shift_in
shift_in-eq x b hx hb = bit_or_add 8 x (x * 256 % 2 ^ 64) b (omega arith) hb ∙ omega arith

pub length-low_bytes : (k v : ℕ) → length (low_bytes k v) ≡ k
unfolding low_bytes
length-low_bytes zero v = refl
length-low_bytes (suc k) v = ap suc (length-low_bytes k v)

low_bytes-IsByte : (k v : ℕ) → All IsByte (low_bytes k v)
unfolding low_bytes
low_bytes-IsByte zero v = tt
low_bytes-IsByte (suc k) v = (omega arith, low_bytes-IsByte k v)

-- The low `k + 1` bytes are byte `k` and the low `k`.
mod_split : (v p : ℕ) → 0 < p → v % (p * 256) ≡ v / p % 256 * p + v % p
mod_split v p h =
    let low : v / p % 256 * p + v % p < p * 256 =
      omega (arith, mul-le-mul_right p (below_256 (v / p)), mod-lt v h) in
    let whole : v ≡ (v / p % 256 * p + v % p) + v / p / 256 * (p * 256) =
      omega (arith, div-add-mod v p, ap (λ (t : ℕ). t * p) (div-add-mod (v / p) 256)) in
    ap (λ (t : ℕ). t % (p * 256)) whole
    ∙ add-mul-mod_self_right (v / p % 256 * p + v % p) (v / p / 256) (p * 256)
    ∙ mod-eq_of_lt low
  where
    below_256 : (a : ℕ) → a % 256 + 1 ≤ 256
    below_256 a = omega arith

-- Reading the low `k` bytes of `v` behind the bytes of `x` puts the two together.
pub read_bytes-low_bytes :
    (k x v : ℕ) (rest : List ℕ)
    → (x + 1) * 256 ^ k ≤ 2 ^ 64
    → read_bytes k x (low_bytes k v ++ rest) ≡ (x * 256 ^ k + v % 256 ^ k, rest)
unfolding read_bytes low_bytes
read_bytes-low_bytes zero x v rest h = ap (λ t. (t, rest)) (omega arith)
read_bytes-low_bytes (suc k) x v rest h =
    let d : ℕ = v / 256 ^ k % 256 in
    let fits : (x + 1) * 256 * 256 ^ k ≤ 2 ^ 64 =
      omega (arith, ap (λ (t : ℕ). (x + 1) * t) (pow-suc 256 k)) in
    let pos : 1 ≤ 256 ^ k = one-le-pow k 256 (omega arith) in
    let small : x < 2 ^ 56 = omega (arith, fits, mul-le-mul_left ((x + 1) * 256) pos) in
    let next : (x * 256 + d + 1) * 256 ^ k ≤ 2 ^ 64 =
      omega (arith, fits, mul-le-mul_right (256 ^ k) (digit_fits x (v / 256 ^ k))) in
    rw (shift_in-eq x d small (omega arith)) (
      read_bytes-low_bytes k (x * 256 + d) v rest next
      ∙ ap (λ t. (t, rest))
          (omega (
            arith,
            ap (λ (t : ℕ). x * t) (pow-suc 256 k),
            ap (λ (t : ℕ). v % t) (pow-suc 256 k),
            mod_split v (256 ^ k) pos,
          )))
  where
    digit_fits : (y a : ℕ) → y * 256 + a % 256 + 1 ≤ (y + 1) * 256
    digit_fits y a = omega arith

low_six_table : all_below 256 (λ b. bit_and b 0x3f == b % 64) ≡ true
unfolding all_below
low_six_table = refl

low_six : (b : ℕ) → b < 256 → bit_and b 0x3f ≡ b % 64
low_six = table_eq 256 (λ b. bit_and b 0x3f) (λ b. b % 64) low_six_table

-- One round of the reader, on a first byte with its two top bits `tag` not both clear.
tagged :
    (tag high k v : ℕ) (rest : List ℕ)
    → high < 64
    → 1 ≤ tag
    → tag ≤ 3
    → k ≡ 2 ^ tag - 1
    → v ≡ high * 256 ^ k + v % 256 ^ k
    → (high + 1) * 256 ^ k ≤ 2 ^ 64
    → decode_quicint ((tag * 64 + high) ∷ (low_bytes k v ++ rest)) ≡ (v, rest)
unfolding decode_quicint
tagged tag high k v rest hh h1 h3 hk hv fits =
    let b : ℕ = tag * 64 + high in
    let count : 2 ^ (b / 64) - 1 ≡ k = sym (hk ∙ ap (λ (t : ℕ). 2 ^ t - 1) (omega arith)) in
    let rest_eq : read_bytes k (bit_and b 0x3f) (low_bytes k v ++ rest) ≡ (v, rest) =
      rw (low_six b (omega arith) ∙ tail_of tag high hh)
        (read_bytes-low_bytes k high v rest fits ∙ ap (λ t. (t, rest)) (sym hv)) in
    rw (le→leb_false b (omega arith)) (
      rw count (
        rw
          (le→ltb (length (low_bytes k v ++ rest)) k
            (omega (arith, length-append (low_bytes k v) rest, length-low_bytes k v)))
          rest_eq))
  where
    tail_of : (t h : ℕ) → h < 64 → (t * 64 + h) % 64 ≡ h
    tail_of t h hlt = omega arith

    le→leb_false : (a : ℕ) → 64 ≤ a → leb a 0x3f ≡ false
    le→leb_false a h = ground arith

one_byte : (v : ℕ) (rest : List ℕ) → v ≤ 63 → decode_quicint (v ∷ rest) ≡ (v, rest)
unfolding decode_quicint
one_byte v rest h = ground arith

-- Every value below 2 ^ 62, the largest that `encode_quicint` admits, is read back, and what
-- follows its bytes is left.
pub decode_quicint-encode_quicint :
    (v : ℕ) (rest : List ℕ) → v < 2 ^ 62 → decode_quicint (encode_quicint v ++ rest) ≡ (v, rest)
unfolding encode_quicint
decode_quicint-encode_quicint v rest h = elim (Bool-cases (ltb 63 v)) [
  | inl b1 ↦ elim (Bool-cases (ltb 16383 v)) [
    | inl b2 ↦ elim (Bool-cases (ltb 1073741823 v)) [
      | inl b3 ↦
          rw (b1, b2, b3)
            (rw (bit_or_add 6 3 0xc0 (v / 2 ^ 56 % 256) refl (omega arith)) (
              tagged 3 (v / 2 ^ 56 % 256) 7 v rest (omega arith) (omega arith) (omega arith) refl
                (omega arith) (omega arith)))
      | inr b3 ↦
          let small : v < 2 ^ 30 = omega (arith, ltb→le 1073741823 v b3) in
          rw (b1, b2, b3)
            (rw (bit_or_add 6 2 0x80 (v / 2 ^ 24 % 256) refl (omega arith)) (
              tagged 2 (v / 2 ^ 24 % 256) 3 v rest (omega arith) (omega arith) (omega arith) refl
                (omega arith) (omega arith)))
    ]
    | inr b2 ↦
        let small : v < 2 ^ 14 = omega (arith, ltb→le 16383 v b2) in
        rw (b1, b2)
          (rw (bit_or_add 6 1 0x40 (v / 2 ^ 8 % 256) refl (omega arith)) (
            tagged 1 (v / 2 ^ 8 % 256) 1 v rest (omega arith) (omega arith) (omega arith) refl
              (omega arith) (omega arith)))
  ]
  | inr b1 ↦ rw b1 (one_byte v rest (ltb→le 63 v b1))
]
