-- ===== src/Asn1/Total.antt =====
-- The walk over an element ends, and inside the element.
use picotls.Prelude.{
  ℕ, zero, suc, ◌+◌, ◌-◌, ◌≤◌, ◌<◌, ◌≡◌, refl, sym, Bool, true, false, ◌&&◌, Option, none, some,
  List, arith, leb, ◌==◌, if◌then◌else◌, leb→le, get_or, drop,
}
use mathlib.Core.Path.{subst}
use picotls.Asn1.{
  Walk, TypeRead, LengthRead, asn1_read_type, asn1_read_length, end_of_contents, after_part,
  validation_parts, validation_contents, validation_recursive,
}
use picotls.Asn1.Bounds.{asn1_read_type-bounds, Bounded, asn1_read_length-Bounded}

-- A walk with a result, over a byte at least and over no more than there are.
abbrev pub Ends : ℕ → Option Walk → Type 0
Ends bytes_max o = (w : Walk) × (o ≡ some w) × (1 ≤ w.index) × (w.index ≤ bytes_max)

if-Ends :
    {m : ℕ} {x y : Option Walk} (c : Bool)
    → (c ≡ true → Ends m x)
    → (c ≡ false → Ends m y)
    → Ends m (if c then x else y)
if-Ends true hx hy = hx refl
if-Ends false hx hy = hy refl

-- The recursive call, for elements of up to `n` bytes.
abbrev pub PartEnds : (List ℕ → ℕ → ℕ → Option Walk) → ℕ → Type 0
PartEnds part n =
    (bytes : List ℕ) (m decode_error : ℕ) → 0 < m → m ≤ n → Ends m (part bytes m decode_error)

module _ (part : List ℕ → ℕ → ℕ → Option Walk) (n : ℕ) (ends : PartEnds part n) (bytes : List ℕ)
    (bytes_max : ℕ) (l : LengthRead) (inside : l.last_byte ≤ bytes_max)
    (small : bytes_max ≤ suc n) where
  validation_parts-Ends :
      (rounds index decode_error : ℕ)
      → 1 ≤ index
      → index ≤ l.last_byte
      → l.last_byte < index + rounds
      → Ends bytes_max (validation_parts part rounds bytes bytes_max l index decode_error)
  unfolding validation_parts after_part end_of_contents
  validation_parts-Ends zero index decode_error h1 h2 h3 = absurd (omega arith)
  validation_parts-Ends (suc rounds) index decode_error h1 h2 h3 =
      if-Ends (leb l.last_byte index)
        (λ at_end. (record { index = index; decode_error = decode_error }, refl, h1, omega arith))
        (λ more.
          if-Ends (l.indefinite_length && get_or bytes index 0 == 0)
            (λ zero_byte. (
              end_of_contents bytes bytes_max index decode_error,
              refl,
              end_bounds.0,
              end_bounds.1,
            ))
            (λ element. go_on (validation_parts-Ends rounds) (leb→gt l.last_byte index more)))
    where
      leb→gt : (a b : ℕ) → leb a b ≡ false → b < a
      leb→gt a b h = ground arith

      end_bounds :
          (1 ≤ (end_of_contents bytes bytes_max index decode_error).index)
          × ((end_of_contents bytes bytes_max index decode_error).index ≤ bytes_max)
      end_bounds = ground arith

      Rest : Option Walk → Type 0
      Rest o = Ends bytes_max (elim o [
        | none ↦ none
        | some w ↦
            after_part bytes_max w
              (validation_parts part rounds bytes bytes_max l (index + w.index) w.decode_error)
      ])

      Later : Type 0
      Later =
          (i e : ℕ)
          → 1 ≤ i
          → i ≤ l.last_byte
          → l.last_byte < i + rounds
          → Ends bytes_max (validation_parts part rounds bytes bytes_max l i e)

      behind : Later → (w : Walk) → 1 ≤ w.index → w.index ≤ l.last_byte - index → Rest (some w)
      behind later w lo hi =
          if-Ends (w.decode_error == 0)
            (λ good.
              later (index + w.index) w.decode_error (omega arith) (omega arith) (omega arith))
            (λ bad. (
              record { index = bytes_max; decode_error = w.decode_error },
              refl,
              omega arith,
              omega arith,
            ))

      go_on :
          Later
          → index < l.last_byte
          → Rest (part (drop index bytes) (l.last_byte - index) decode_error)
      go_on later h =
          let (w, e, lo, hi) =
            ends (drop index bytes) (l.last_byte - index) decode_error (omega arith)
              (omega arith) in
          subst Rest (sym e) (behind later w lo hi)

validation_contents-Ends :
    (part : List ℕ → ℕ → ℕ → Option Walk) (n : ℕ)
    → PartEnds part n
    → (bytes : List ℕ) (bytes_max : ℕ) (t : TypeRead) (l : LengthRead) → bytes_max ≤ suc n
    → Bounded bytes_max 1 l
    → Ends bytes_max (validation_contents part bytes bytes_max t l)
unfolding validation_contents
validation_contents-Ends part n ends bytes bytes_max t l small b =
    if-Ends (leb l.last_byte bytes_max)
      (λ inside.
        if-Ends (t.structure_bit == 0)
          (λ plain. (
            record { index = l.last_byte; decode_error = l.decode_error },
            refl,
            omega arith,
            leb→le l.last_byte bytes_max inside,
          ))
          (λ structured.
            validation_parts-Ends part n ends bytes bytes_max l
              (leb→le l.last_byte bytes_max inside) small (bytes_max + 1) l.index l.decode_error b.0
              b.2 (omega (arith, leb→le l.last_byte bytes_max inside))))
      (λ outside. (record { index = l.index; decode_error = l.decode_error }, refl, b.0, b.1))

pub validation_recursive-Ends : (depth : ℕ) → PartEnds (validation_recursive depth) depth
unfolding validation_recursive
validation_recursive-Ends zero bytes m decode_error h0 h1 = absurd (omega arith)
validation_recursive-Ends (suc depth) bytes m decode_error h0 h1 =
    let t : TypeRead = asn1_read_type bytes m decode_error in
    let (lo, hi) = asn1_read_type-bounds bytes m decode_error h0 in
    let b = asn1_read_length-Bounded bytes m t.index t.decode_error hi in
    validation_contents-Ends (validation_recursive depth) depth (validation_recursive-Ends depth)
      bytes m t (asn1_read_length bytes m t.index t.decode_error) h1 (omega arith, b.1, b.2)
