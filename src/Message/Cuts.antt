-- ===== src/Message/Cuts.antt =====
-- A byte stream cut into handshake messages: the specification of the reassembly.
use picotls.Prelude.{
  ℕ, zero, suc, ◌+◌, ◌≤◌, ◌≡◌, refl, sym, ap, ◌∙◌, inl, inr, true, false, List, [], ◌∷◌, ◌++◌,
  append_assoc, arith, le→ltb, Bool-cases, length, take, drop, length-append, take-append-drop,
  length-take, length-drop, take-append_length, drop-append_length, get_or-append,
}
use mathlib.Core.Path.{ap₂}
use picotls.Message.{message_length, has_message}

-- A whole message: a header, and as many bytes as it says.
abbrev pub Framed : List ℕ → Type 0
Framed m = (4 ≤ length m) × (message_length m ≡ length m)

-- The specification: a byte stream is cut into whole messages, and a rest with none in front.
pub data Cuts : List ℕ → List (List ℕ) → List ℕ → Type 0 where
  partial : (src : List ℕ) → has_message src ≡ false → Cuts src [] src
  message :
      {whole src rest : List ℕ} {ms : List (List ℕ)} (m : List ℕ)
      → Framed m
      → whole ≡ m ++ src
      → Cuts src ms rest
      → Cuts whole (m ∷ ms) rest

-- What is cut off the front of a stream does not depend on what follows.
pub Cuts-append :
    {a rest end : List ℕ} {ms ns : List (List ℕ)} (b : List ℕ)
    → Cuts a ms rest
    → Cuts (rest ++ b) ns end
    → Cuts (a ++ b) (ms ++ ns) end
Cuts-append b (partial src h) d = d
Cuts-append b (message {src = src} m f e c) d =
    message m f (ap (λ t. t ++ b) e ∙ append_assoc m src b) (Cuts-append b c d)

pub message_length-append :
    (a b : List ℕ) → 4 ≤ length a → message_length (a ++ b) ≡ message_length a
unfolding message_length
message_length-append a b h = cc (
  get_or-append a b 1 0 (omega arith),
  get_or-append a b 2 0 (omega arith),
  get_or-append a b 3 0 (omega arith),
)

message_length-ge : (a : List ℕ) → 4 ≤ message_length a
unfolding message_length
message_length-ge a = omega arith

has_message_room : (a : List ℕ) → has_message a ≡ true → message_length a ≤ length a
unfolding has_message
has_message_room a h = ground arith

pub Framed-has_message : (m src : List ℕ) → Framed m → has_message (m ++ src) ≡ true
unfolding has_message
Framed-has_message m src (four, whole) =
    rw (message_length-append m src four, whole, length-append m src)
      (rw (le→ltb (length m + length src) 4 (omega arith))
        (rw (le→ltb (length m + length src) (length m) (omega arith)) refl))

first-Framed : (src : List ℕ) → has_message src ≡ true → Framed (take (message_length src) src)
first-Framed src h =
    let len : ℕ = message_length src in
    let room : len ≤ length src = has_message_room src h in
    let size : length (take len src) ≡ len = omega (arith, length-take len src) in
    (
      omega (arith, message_length-ge src),
      sym (
            message_length-append (take len src) (drop len src)
              (omega (arith, message_length-ge src)))
          ∙ ap message_length (take-append-drop len src)
          ∙ sym size,
    )

cut_first :
    {src rest : List ℕ} {ms : List (List ℕ)}
    → has_message src ≡ true
    → Cuts (drop (message_length src) src) ms rest
    → Cuts src (take (message_length src) src ∷ ms) rest
cut_first {src} more c =
    message (take (message_length src) src) (first-Framed src more)
      (sym (take-append-drop (message_length src) src)) c

-- Every stream can be cut.
pub cut_up :
    (n : ℕ) (src : List ℕ)
    → length src ≤ n
    → (ms : List (List ℕ)) × (rest : List ℕ) × Cuts src ms rest
cut_up zero src h = elim (Bool-cases (has_message src)) [
  | inr stop ↦ ([], src, partial src stop)
  | inl more ↦ absurd (omega (arith, has_message_room src more, message_length-ge src))
]
cut_up (suc n) src h = elim (Bool-cases (has_message src)) [
  | inr stop ↦ ([], src, partial src stop)
  | inl more ↦
      let len : ℕ = message_length src in
      let (ms, rest, c) =
        cut_up n (drop len src) (omega (arith, length-drop len src, message_length-ge src)) in
      (take len src ∷ ms, rest, cut_first more c)
]

pub no_message : has_message [] ≡ false
unfolding has_message
no_message = refl

pub Cuts-rest :
    {src rest : List ℕ} {ms : List (List ℕ)} → Cuts src ms rest → has_message rest ≡ false
Cuts-rest (partial src h) = h
Cuts-rest (message m f e c) = Cuts-rest c

-- A framed message in front of a stream is found by its header alone.
first_message :
    (whole m src : List ℕ)
    → Framed m
    → whole ≡ m ++ src
    → (has_message whole ≡ true)
      × (m ≡ take (message_length whole) whole)
      × (src ≡ drop (message_length whole) whole)
first_message whole m src f e =
    let len : message_length whole ≡ length m =
      ap message_length e ∙ message_length-append m src f.0 ∙ f.1 in
    (
      ap has_message e ∙ Framed-has_message m src f,
      rw (len, e, take-append_length m src) refl,
      rw (len, e, drop-append_length m src) refl,
    )

-- There is one way to cut a stream.
pub Cuts-unique :
    {a b r q : List ℕ} {ms ns : List (List ℕ)}
    → a ≡ b
    → Cuts a ms r
    → Cuts b ns q
    → (ms ≡ ns) × (r ≡ q)
Cuts-unique ab (partial a h) (partial b k) = (refl, ab)
Cuts-unique ab (partial a h) (message {whole = w} {src = src} m f e d) =
    cc (h, ap has_message ab, (first_message w m src f e).0)
Cuts-unique ab (message {whole = w} {src = src} m f e c) (partial b k) =
    cc (k, ap has_message ab, (first_message w m src f e).0)
Cuts-unique ab (message {whole = w} {src = src} m f e c)
      (message {whole = v} {src = tail} n g k d) =
    let (_, m_eq, src_eq) = first_message w m src f e in
    let (_, n_eq, tail_eq) = first_message v n tail g k in
    let (rest_ms, rest_r) = Cuts-unique (cc (ab, src_eq, tail_eq)) c d in
    (ap₂ (λ t u. t ∷ u) (cc (ab, m_eq, n_eq)) rest_ms, rest_r)
