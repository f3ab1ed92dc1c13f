-- ===== src/Record/Chunks.antt =====
-- Cutting the stream at any point between two calls changes nothing.
use picotls.Prelude.{
  ℕ, ◌+◌, ◌-◌, ◌≡◌, refl, sym, ap, ◌∙◌, inl, inr, Bool, true, Option, some, List, ◌++◌,
  append_assoc, arith, ltb, ltb→lt, ltb→le, Bool-cases, length, take, drop, All, length-append,
  All-append,
}
use mathlib.Core.Path.{subst, ap₂}
use picotls.Wire.{IsByte}
use picotls.Record.{Rec, size_limit, header_fields, parse_record}
use picotls.Record.Framing.{
  Outcome, need_more, failed, complete, held, outcome, frame, Incomplete, parse_record-frame,
}

-- What `frame` leaves held is the whole stream, and again the start of a record.
frame-Incomplete :
    (used : ℕ) (stream buf : List ℕ)
    → frame used stream ≡ need_more buf
    → (stream ≡ buf) × Incomplete stream
unfolding frame
frame-Incomplete used stream buf h =
    let rec : Rec = header_fields stream in
    elim (Bool-cases (ltb (length stream) 5)) [
      | inl b1 ↦ (cc (rw b1 at h), λ h5. absurd (omega (arith, ltb→lt _ _ b1)))
      | inr b1 ↦ elim (Bool-cases (ltb (size_limit rec.type) rec.length)) [
        | inl b2 ↦ cc (rw (b1, b2) at h)
        | inr b2 ↦ elim (Bool-cases (ltb (length stream) (5 + rec.length))) [
          | inl b3 ↦ (cc (rw (b1, b2, b3) at h), λ h5. (ltb→le _ _ b2, ltb→lt _ _ b3))
          | inr b3 ↦ cc (rw (b1, b2, b3) at h)
        ]
      ]
    ]

-- The same outcome, when `n` of the bytes were given in an earlier call.
pub after : ℕ → Outcome → Outcome
after n (need_more buf) = need_more buf
after n (failed code) = failed code
after n (complete rec consumed) = complete rec (consumed - n)

after-frame : (n used : ℕ) (stream : List ℕ) → after n (frame used stream) ≡ frame (used + n) stream
unfolding after frame
after-frame n used stream =
    let rec : Rec = header_fields stream in
    elim (Bool-cases (ltb (length stream) 5)) [
      | inl b1 ↦ rw b1 refl
      | inr b1 ↦ rw b1 (elim (Bool-cases (ltb (size_limit rec.type) rec.length)) [
        | inl b2 ↦ rw b2 refl
        | inr b2 ↦ rw b2 (elim (Bool-cases (ltb (length stream) (5 + rec.length))) [
          | inl b3 ↦ rw b3 refl
          | inr b3 ↦ rw b3 (
              ap (complete (record rec { fragment = some (take rec.length (drop 5 stream)) }))
                (omega arith))
        ])
      ])
    ]

-- When memory is there and a first call on `a` asks for more, a second call on `b` ends just as
-- one call on all the bytes `a ++ b` does: the same error, the same record cut out at the same
-- place, or the same bytes held.
pub parse_record-append :
    (grow : ℕ → ℕ → Bool) (recvbuf : Option (List ℕ)) (a b buf : List ℕ)
    → ((off delta : ℕ) → grow off delta ≡ true)
    → Incomplete (held recvbuf)
    → All IsByte (held recvbuf)
    → All IsByte a
    → All IsByte b
    → outcome (parse_record grow recvbuf a) ≡ need_more buf
    → outcome (parse_record grow (some buf) b)
      ≡ after (length a) (outcome (parse_record grow recvbuf (a ++ b)))
parse_record-append grow recvbuf a b buf room hi hh ha hb h =
    let used : ℕ = length (held recvbuf) in
    let first : frame used (held recvbuf ++ a) ≡ need_more buf =
      sym (parse_record-frame grow room recvbuf a hi hh ha) ∙ h in
    let (whole, part) = frame-Incomplete used (held recvbuf ++ a) buf first in
    let bytes_held : All IsByte buf = rw whole at (All-append IsByte (held recvbuf) a hh ha) in
    let part_held : Incomplete buf = subst Incomplete whole part in
    parse_record-frame grow room (some buf) b part_held bytes_held hb
    ∙ ap₂ frame (ap length (sym whole) ∙ length-append (held recvbuf) a)
        (ap (λ t. t ++ b) (sym whole) ∙ append_assoc (held recvbuf) a b)
    ∙ sym (after-frame (length a) used (held recvbuf ++ (a ++ b)))
    ∙ ap (after (length a))
        (sym (parse_record-frame grow room recvbuf (a ++ b) hi hh (All-append IsByte a b ha hb)))
