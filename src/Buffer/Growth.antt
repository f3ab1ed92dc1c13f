-- ===== src/Buffer/Growth.antt =====
-- A buffer grows enough, and the growth ends.
use picotls.Prelude.{
  ℕ, zero, suc, ◌+◌, ◌*◌, ◌%◌, ◌^◌, ◌≤◌, ◌≡◌, refl, sym, ap, ◌∙◌, inl, inr, Bool, true, Option,
  none, some, List, [], ◌∷◌, ◌++◌, append-nil, arith, ltb, if◌then◌else◌, ltb→lt, ltb→le, le→ltb,
  Bool-cases, length, length-append, Result, ok, err, ◌>>=◌,
}
use mathlib.Core.Option
use mathlib.Core.Path.{subst}
use picotls.Prelude.Bits.{double_power}
use picotls.Code.{error_no_memory}
use picotls.Buffer.{
  Buffer, wanted, double_capacity, allocate, reserve_held, buffer_reserve, append_bytes, do_pushv,
}

-- A buffer with the bytes `bytes`, which it has room for.
abbrev pub HasBytes : List ℕ → Buffer → Type 0
HasBytes bytes buf = (buf.base ≡ some bytes) × (buf.off ≡ length bytes) × (buf.off ≤ buf.capacity)

double_twice : (c k : ℕ) → c * 2 * 2 ^ k ≡ c * 2 ^ suc k
double_twice c k = grind (arith, double_power c k)

double_capacity-ends :
    (rounds want c : ℕ)
    → want ≤ 2 ^ 63
    → 2 ^ 63 ≤ c * 2 ^ rounds
    → (d : ℕ) × (double_capacity (suc rounds) want c ≡ some d) × (want ≤ d)
unfolding double_capacity
double_capacity-ends zero want c h enough =
    let whole : c * 2 ^ 0 ≡ c = omega arith in
    (c, rw (le→ltb c want (omega arith)) refl, omega arith)
double_capacity-ends (suc rounds) want c h enough = elim (Bool-cases (ltb c want)) [
  | inr large ↦ (c, rw large refl, ltb→le c want large)
  | inl small ↦
      let exact : c * 2 % 2 ^ 64 ≡ c * 2 = omega (arith, ltb→lt c want small) in
      let (d, e, le) =
        double_capacity-ends rounds want (c * 2) h (omega (arith, double_twice c rounds)) in
      (d, rw small (ap (λ (n : ℕ). double_capacity (suc rounds) want n) exact ∙ e), le)
]

module _ (malloc : ℕ → Bool) (has_memory : (n : ℕ) → malloc n ≡ true) where
  reserve_held-HasBytes :
      (buf : Buffer) (bytes : List ℕ) (delta : ℕ)
      → HasBytes bytes buf
      → buf.off + delta ≤ 2 ^ 63
      → (buf' : Buffer) × (reserve_held malloc buf delta ≡ some (ok buf'))
        × (HasBytes bytes buf' × (buf.off + delta ≤ buf'.capacity))
  unfolding reserve_held wanted allocate
  reserve_held-HasBytes buf bytes delta h fits =
      let want : (buf.off + delta) % 2 ^ 64 ≡ buf.off + delta = omega arith in
      elim (Bool-cases (ltb buf.capacity (buf.off + delta))) [
        | inr room ↦ (buf, rw (want, room) refl, (h, ltb→le buf.capacity (buf.off + delta) room))
        | inl short ↦
            let start : ℕ = if ltb buf.capacity 1024 then 1024 else buf.capacity in
            let big : 1024 ≤ start = ground arith in
            let (d, e, le) = double_capacity-ends 53 (buf.off + delta) start fits (omega arith) in
            (
              record buf { capacity = d; is_allocated = true },
              rw (want, short, e) (rw (has_memory d) refl),
              ((h.0, h.1, omega arith), le),
            )
      ]

  -- A push onto a buffer whose pointer is not NULL ends, as long as what it then holds is at most
  -- 2 ^ 63 bytes and memory is there: the bytes are appended, and the capacity covers them.
  pub do_pushv-HasBytes :
      (buf : Buffer) (bytes src : List ℕ)
      → HasBytes bytes buf
      → length bytes + length src ≤ 2 ^ 63
      → (buf' : Buffer) × (do_pushv malloc buf src ≡ some (ok buf')) × HasBytes (bytes ++ src) buf'
  unfolding do_pushv buffer_reserve append_bytes
  do_pushv-HasBytes buf bytes [] h fits =
      (buf, refl, subst (λ t. HasBytes t buf) (sym (append-nil bytes)) h)
  do_pushv-HasBytes buf bytes (b ∷ src) h fits =
      let (held, e, (has, room)) =
        reserve_held-HasBytes buf bytes (length (b ∷ src)) h (omega (arith, h.1)) in
      (
        append_bytes (b ∷ src) held,
        ap (λ o. pushed (b ∷ src) (held_or_null o)) h.0 ∙ ap (pushed (b ∷ src)) e,
        (
          ap (λ o. Option.map (λ t. t ++ b ∷ src) o) has.0,
          omega (arith, has.1, length-append bytes (b ∷ src)),
          omega (arith, has.1, h.1),
        ),
      )
    where
      pushed : List ℕ → Option (Result Buffer) → Option (Result Buffer)
      pushed new o = Option.map (λ r. r >>= (λ held. ok (append_bytes new held))) o

      held_or_null : Option (List ℕ) → Option (Result Buffer)
      held_or_null o = elim o [
        | none ↦ some (err error_no_memory)
        | some bytes ↦ reserve_held malloc buf (length (b ∷ src))
      ]
