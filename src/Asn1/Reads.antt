-- ===== src/Asn1/Reads.antt =====
-- Which bytes the walk over an element reads.
use picotls.Prelude.{
  ℕ, zero, suc, ◌+◌, ◌-◌, ◌*◌, ◌%◌, ◌^◌, ◌≤◌, ◌<◌, bit_or, ◌≡◌, refl, sym, ap, ◌∙◌, inl, inr, Bool,
  true, false, ◌&&◌, Option, none, some, List, ◌++◌, arith, ltb, leb, ◌==◌, if◌then◌else◌, ltb→lt,
  ltb→le, leb→le, Bool-cases, length, get_or, drop, length-drop, drop-append_le, get_or-append,
}
use picotls.Asn1.{
  TypeRead, LengthRead, Walk, read_long_type, asn1_read_type, read_length_bytes, long_length,
  asn1_read_length, shift_type, end_of_contents, after_part, validation_parts, validation_contents,
  validation_recursive, asn1_validation, verdict,
}
use picotls.Asn1.Bounds.{asn1_read_type-bounds, Bounded, asn1_read_length-Bounded}
use picotls.Asn1.Total.{PartEnds, validation_recursive-Ends}

pub if-same {ℓ} :
    {A : Type ℓ} {x x' y y' : A} (c : Bool)
    → (c ≡ true → x ≡ x')
    → (c ≡ false → y ≡ y')
    → (if c then x else y) ≡ (if c then x' else y')
if-same true hx hy = hx refl
if-same false hx hy = hy refl

leb→gt : (a b : ℕ) → leb a b ≡ false → b < a
leb→gt a b h = ground arith

module _ (bytes extra : List ℕ) where
  read_long_type-append :
      (left index long_type : ℕ)
      → index + left ≤ length bytes
      → read_long_type (bytes ++ extra) left index long_type
        ≡ read_long_type bytes left index long_type
  unfolding read_long_type
  read_long_type-append zero index long_type h = refl
  read_long_type-append (suc left) index long_type h =
      rw
        (
          get_or-append bytes extra index 0 (omega arith),
          read_long_type-append left (index + 1) (shift_type long_type (get_or bytes index 0))
              (omega arith),
        )
        refl

  asn1_read_type-append :
      (bytes_max decode_error : ℕ)
      → 0 < bytes_max
      → bytes_max ≤ length bytes
      → asn1_read_type (bytes ++ extra) bytes_max decode_error
        ≡ asn1_read_type bytes bytes_max decode_error
  unfolding asn1_read_type
  asn1_read_type-append bytes_max decode_error h0 h =
      rw
        (
          get_or-append bytes extra 0 0 (omega arith),
          read_long_type-append (bytes_max - 1) 1 0 (omega arith),
        )
        refl

  read_length_bytes-append :
      (count index len : ℕ)
      → index + count ≤ length bytes
      → read_length_bytes (bytes ++ extra) count index len ≡ read_length_bytes bytes count index len
  unfolding read_length_bytes
  read_length_bytes-append zero index len h = refl
  read_length_bytes-append (suc count) index len h =
      rw (get_or-append bytes extra index 0 (omega arith)) (
        read_length_bytes-append count (index + 1)
          (bit_or (len * 2 ^ 8 % 2 ^ 32) (get_or bytes index 0)) (omega arith))

  long_length-append :
      (bytes_max index b decode_error : ℕ)
      → bytes_max ≤ length bytes
      → long_length (bytes ++ extra) bytes_max index b decode_error
        ≡ long_length bytes bytes_max index b decode_error
  unfolding long_length
  long_length-append bytes_max index b decode_error h =
      if-same (leb bytes_max (index + b % 128)) (λ short. refl)
        (λ enough.
          rw
            (read_length_bytes-append (b % 128) index 0
              (omega (arith, leb→gt bytes_max (index + b % 128) enough)))
            refl)

  asn1_read_length-append :
      (bytes_max index decode_error : ℕ)
      → bytes_max ≤ length bytes
      → asn1_read_length (bytes ++ extra) bytes_max index decode_error
        ≡ asn1_read_length bytes bytes_max index decode_error
  unfolding asn1_read_length
  asn1_read_length-append bytes_max index decode_error h =
      if-same (ltb index bytes_max)
        (λ there.
          rw
            (
              get_or-append bytes extra index 0 (omega (arith, ltb→lt index bytes_max there)),
              long_length-append bytes_max (index + 1) (get_or bytes index 0) decode_error h,
            )
            refl)
        (λ gone. refl)

  end_of_contents-append :
      (bytes_max index decode_error : ℕ)
      → bytes_max ≤ length bytes
      → end_of_contents (bytes ++ extra) bytes_max index decode_error
        ≡ end_of_contents bytes bytes_max index decode_error
  unfolding end_of_contents
  end_of_contents-append bytes_max index decode_error h =
      elim (Bool-cases (ltb bytes_max (index + 2))) [
        | inl short ↦ rw short refl
        | inr enough ↦
            rw
              (get_or-append bytes extra (index + 1) 0
                (omega (arith, ltb→le bytes_max (index + 2) enough)))
              refl
      ]

-- The recursive call looks at no byte behind its element.
abbrev SameRead : (List ℕ → ℕ → ℕ → Option Walk) → ℕ → List ℕ → Type 0
SameRead part n extra =
    (bytes : List ℕ) (m decode_error : ℕ)
    → 0 < m
    → m ≤ n
    → m ≤ length bytes
    → part (bytes ++ extra) m decode_error ≡ part bytes m decode_error

module _ (part : List ℕ → ℕ → ℕ → Option Walk) (n : ℕ) (ends : PartEnds part n) (extra : List ℕ)
    (same : SameRead part n extra) (bytes : List ℕ) (bytes_max : ℕ)
    (held : bytes_max ≤ length bytes) (small : bytes_max ≤ suc n) where
  validation_parts-append :
      (l : LengthRead) (rounds index decode_error : ℕ)
      → l.last_byte ≤ bytes_max
      → 1 ≤ index
      → index ≤ l.last_byte
      → validation_parts part rounds (bytes ++ extra) bytes_max l index decode_error
        ≡ validation_parts part rounds bytes bytes_max l index decode_error
  unfolding validation_parts
  validation_parts-append l zero index decode_error h h1 h2 = refl
  validation_parts-append l (suc rounds) index decode_error h h1 h2 =
      if-same (leb l.last_byte index) (λ at_end. refl)
        (λ more.
          rw
            (
              get_or-append bytes extra index 0 (omega (arith, leb→gt l.last_byte index more)),
              end_of_contents-append bytes extra bytes_max index decode_error held,
            )
            (if-same (l.indefinite_length && get_or bytes index 0 == 0) (λ eoc. refl)
              (λ element.
                go_on (λ i e. validation_parts-append l rounds i e h)
                  (leb→gt l.last_byte index more))))
    where
      Later : Type 0
      Later =
          (i e : ℕ)
          → 1 ≤ i
          → i ≤ l.last_byte
          → validation_parts part rounds (bytes ++ extra) bytes_max l i e
            ≡ validation_parts part rounds bytes bytes_max l i e

      left : ℕ
      left = l.last_byte - index

      rest : List ℕ → Option Walk → Option Walk
      rest all o = elim o [
        | none ↦ none
        | some w ↦
            after_part bytes_max w
              (validation_parts part rounds all bytes_max l (index + w.index) w.decode_error)
      ]

      go_on :
          Later
          → index < l.last_byte
          → rest (bytes ++ extra) (part (drop index (bytes ++ extra)) left decode_error)
            ≡ rest bytes (part (drop index bytes) left decode_error)
      go_on later more =
          let (w, e, lo, hi) =
            ends (drop index bytes) left decode_error (omega arith) (omega arith) in
          ap (λ t. rest (bytes ++ extra) (part t left decode_error))
            (drop-append_le index bytes extra (omega arith))
          ∙ ap (rest (bytes ++ extra)) (
              same (drop index bytes) left decode_error (omega arith) (omega arith)
                (omega (arith, length-drop index bytes))
              ∙ e)
          ∙ ap (after_part bytes_max w)
              (later (index + w.index) w.decode_error (omega arith) (omega arith))
          ∙ ap (rest bytes) (sym e)

  validation_contents-append :
      (t : TypeRead) (l : LengthRead)
      → Bounded bytes_max 1 l
      → validation_contents part (bytes ++ extra) bytes_max t l
        ≡ validation_contents part bytes bytes_max t l
  unfolding validation_contents
  validation_contents-append t l b =
      if-same (leb l.last_byte bytes_max)
        (λ inside.
          if-same (t.structure_bit == 0) (λ plain. refl)
            (λ structured.
              validation_parts-append l (bytes_max + 1) l.index l.decode_error
                (leb→le l.last_byte bytes_max inside) b.0 b.2))
        (λ outside. refl)

validation_recursive-SameRead :
    (depth : ℕ) (extra : List ℕ) → SameRead (validation_recursive depth) depth extra
unfolding validation_recursive
validation_recursive-SameRead zero extra bytes m decode_error h0 small held = refl
validation_recursive-SameRead (suc depth) extra bytes m decode_error h0 small held =
    let t : TypeRead = asn1_read_type bytes m decode_error in
    let (lo, hi) = asn1_read_type-bounds bytes m decode_error h0 in
    let b = asn1_read_length-Bounded bytes m t.index t.decode_error hi in
    rw
      (
        asn1_read_type-append bytes extra m decode_error h0 held,
        asn1_read_length-append bytes extra m t.index t.decode_error held,
      )
      (validation_contents-append (validation_recursive depth) depth
        (validation_recursive-Ends depth) extra (validation_recursive-SameRead depth extra) bytes m
        held small t (asn1_read_length bytes m t.index t.decode_error) (omega arith, b.1, b.2))

-- The check of an element of one byte or more reads none of the bytes that lie behind the element
-- in memory: whatever they are, the answer is the same.
pub asn1_validation-append :
    (bytes extra : List ℕ)
    → 0 < length bytes
    → asn1_validation (bytes ++ extra) (length bytes) ≡ asn1_validation bytes (length bytes)
unfolding asn1_validation
asn1_validation-append bytes extra h = ap said (
    validation_recursive-SameRead (length bytes + 1) extra bytes (length bytes) 0 h (omega arith)
      (omega arith))
  where
    said : Option Walk → Option ℕ
    said o = elim o [ none ↦ none | some w ↦ some (verdict (length bytes) w) ]
