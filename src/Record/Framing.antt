-- ===== src/Record/Framing.antt =====
-- `parse_record` cuts a byte stream into records, however the bytes arrive.
use picotls.Prelude.{
  ℕ, zero, suc, ◌+◌, ◌-◌, ◌^◌, ◌≤◌, ◌<◌, ◌≡◌, refl, sym, ap, ◌∙◌, inl, inr, Bool, true, false, not,
  ◌&&◌, Option, none, some, List, [], ◌∷◌, ◌++◌, append-nil, append_assoc, arith, ltb, leb, ◌==◌,
  if◌then◌else◌, ltb→lt, lt→ltb, ltb→le, le→ltb, leb→le, ==_self, Bool-cases, length, get_or, take,
  drop, All, length-append, take-append-drop, length-take, length-drop, take-append_le,
  drop-append_le, take_le, get_or-append, All-append, All-take,
}
use picotls.Code.{alert_decode_error, error_in_progress}
use picotls.Wire.{IsByte}
use picotls.Wire.Integers.{ntoh16-eq}
use picotls.Record.{
  Rec, Parsed, size_limit, header_fields, parse_record_header, fill_header, fill_fragment,
  finish_fragment, missing, slow_path, start_slow_path, parse_record,
}

-- What a call means to the caller.
pub data Outcome : Type 0 where
  need_more : List ℕ → Outcome
  failed : ℕ → Outcome
  complete : Rec → ℕ → Outcome

-- The bytes held are those in the buffer; none, if it is not there.
abbrev pub held : Option (List ℕ) → List ℕ
held none = []
held (some buf) = buf

unfoldable pub outcome : Parsed → Outcome
outcome p =
    if p.ret == 0
    then complete p.rec p.consumed
    else if p.ret == error_in_progress
    then need_more (held p.recvbuf)
    else failed p.ret

-- The specification looks at the held and the new bytes as one run of bytes. `used` is the number
-- of bytes held before the call.
unfoldable pub frame : ℕ → List ℕ → Outcome
frame used stream =
    let rec = header_fields stream in
    if ltb (length stream) 5
    then need_more stream
    else if ltb (size_limit rec.type) rec.length
    then failed alert_decode_error
    else if ltb (length stream) (5 + rec.length)
    then need_more stream
    else complete (record rec { fragment = some (take rec.length (drop 5 stream)) })
        (5 + rec.length - used)

-- The bytes that a call may find in the buffer: less than a header, or a good header and less than
-- its record.
abbrev pub Incomplete : List ℕ → Type 0
Incomplete buf =
    (5 ≤ length buf)
    → ((header_fields buf).length ≤ size_limit (header_fields buf).type)
      × (length buf < 5 + (header_fields buf).length)

fill_header_lem :
    (k : ℕ) (buf src : List ℕ)
    → length buf + k ≡ 5
    → fill_header buf src ≡ (buf ++ take k src, drop k src, leb k (length src))
unfolding fill_header
fill_header_lem zero buf [] h = rw append-nil (ground arith)
fill_header_lem zero buf (b ∷ src) h = rw append-nil (ground arith)
fill_header_lem (suc k) buf [] h = rw append-nil (ground arith)
fill_header_lem (suc k) buf (b ∷ src) h = rw (lt→ltb (length buf) 5 (omega arith)) (
    fill_header_lem k (buf ++ b ∷ []) src (omega (arith, length-append buf (b ∷ [])))
    ∙ ap (λ t. (t, drop k src, leb k (length src))) (append_assoc buf (b ∷ []) (take k src))
    ∙ ap (λ t. (buf ++ b ∷ take k src, drop k src, t)) (ground arith))

fill_header_full : (buf src : List ℕ) → 5 ≤ length buf → fill_header buf src ≡ (buf, src, true)
unfolding fill_header
fill_header_full buf [] h = ground arith
fill_header_full buf (b ∷ src) h = ground arith

leb→gt : (a b : ℕ) → leb a b ≡ false → b < a
leb→gt a b h = ground arith

-- A record's length field is below 2 ^ 16.
length_field : (buf : List ℕ) → All IsByte buf → (header_fields buf).length < 2 ^ 16
unfolding header_fields
length_field buf h =
    omega (
      arith,
      ntoh16-eq (get_or buf 3 0) (get_or buf 4 0) (byte buf h 4),
      byte buf h 3,
      byte buf h 4,
    )
  where
    byte : (xs : List ℕ) → All IsByte xs → (i : ℕ) → get_or xs i 0 < 256
    byte [] h i = omega arith
    byte (x ∷ xs) h zero = h.0
    byte (x ∷ xs) h (suc i) = byte xs h.1 i

header_fields-append :
    (buf more : List ℕ) → 5 ≤ length buf → header_fields (buf ++ more) ≡ header_fields buf
unfolding header_fields
header_fields-append buf more h = cc (
  get_or-append buf more 0 0 (omega arith),
  get_or-append buf more 1 0 (omega arith),
  get_or-append buf more 2 0 (omega arith),
  get_or-append buf more 3 0 (omega arith),
  get_or-append buf more 4 0 (omega arith),
)

-- The fragment does not depend on the bytes behind the record.
fragment_enough :
    (n len : ℕ) (buf src : List ℕ)
    → length buf + n ≡ 5 + len
    → n ≤ length src
    → take len (drop 5 (buf ++ take n src)) ≡ take len (drop 5 (buf ++ src))
fragment_enough n len buf src e h =
    let whole : List ℕ = buf ++ take n src in
    let size : length whole ≡ 5 + len =
      omega (arith, length-append buf (take n src), length-take n src) in
    sym (
      ap (λ t. take len (drop 5 t))
        (ap (λ t. buf ++ t) (sym (take-append-drop n src))
          ∙ sym (append_assoc buf (take n src) (drop n src)))
      ∙ ap (take len) (drop-append_le 5 whole (drop n src) (omega arith))
      ∙ take-append_le len (drop 5 whole) (drop n src) (omega (arith, length-drop 5 whole)))

and_false : (b : Bool) → (b && false) ≡ false
and_false true = refl
and_false false = refl

-- The end of the slow path, when `n` bytes were missing.
finish_fragment_lem :
    (used total n : ℕ) (buf src : List ℕ)
    → 5 ≤ length buf
    → length buf + n ≡ 5 + (header_fields buf).length
    → used + total ≡ length buf + length src
    → length src ≤ total
    → outcome (finish_fragment total (header_fields buf) (buf ++ take n src) (drop n src)) ≡ (
        if ltb (length buf + length src) (5 + (header_fields buf).length)
        then need_more (buf ++ src)
        else complete
            (record (header_fields buf) {
              fragment = some (take (header_fields buf).length (drop 5 (buf ++ src)));
            })
            (5 + (header_fields buf).length - used))
unfolding finish_fragment outcome
finish_fragment_lem used total n buf src h5 hn hu ht =
    let rec : Rec = header_fields buf in
    elim (Bool-cases (ltb (length buf + length src) (5 + rec.length))) [
      | inl short ↦
          let lt : length buf + length src < 5 + rec.length = ltb→lt _ _ short in
          rw (short, take_le n src (omega arith))
            (rw (ne (length (buf ++ src)) (rec.length + 5) (omega (arith, length-append buf src)))
              refl)
      | inr long ↦
          let le : 5 + rec.length ≤ length buf + length src = ltb→le _ _ long in
          let full : length (buf ++ take n src) ≡ rec.length + 5 =
            omega (arith, length-append buf (take n src), length-take n src) in
          rw (long, full)
            (rw (==_self (rec.length + 5), fragment_enough n rec.length buf src hn (omega arith))
              (ap
                (complete (record rec { fragment = some (take rec.length (drop 5 (buf ++ src))) }))
                (omega (arith, length-drop n src))))
    ]
  where
    ne : (a b : ℕ) → a < b → (a == b) ≡ false
    ne a b h = ground arith

module _ (grow : ℕ → ℕ → Bool) (room : (off delta : ℕ) → grow off delta ≡ true) where
  fill_fragment_lem :
      (used total : ℕ) (buf src : List ℕ)
      → 5 ≤ length buf
      → All IsByte buf
      → ((header_fields buf).length ≤ size_limit (header_fields buf).type
          → length buf ≤ 5 + (header_fields buf).length)
      → used + total ≡ length buf + length src
      → length src ≤ total
      → outcome (fill_fragment grow total buf src) ≡ frame used (buf ++ src)
  unfolding fill_fragment outcome frame parse_record_header missing
  fill_fragment_lem used total buf src h5 hb hl hu ht =
      let rec : Rec = header_fields buf in
      let n : ℕ = 5 + rec.length - length buf in
      rw (header_fields-append buf src h5, length-append buf src)
        (rw (le→ltb (length buf + length src) 5 (omega arith))
          (elim (Bool-cases (ltb (size_limit rec.type) rec.length)) [
            | inl bad ↦ rw bad refl
            | inr good ↦
                let fits : length buf ≤ 5 + rec.length = hl (ltb→le _ _ good) in
                let addlen : missing rec.length (length buf) ≡ n =
                  omega (arith, length_field buf hb) in
                rw good (
                  rw (addlen, room (length buf) n, and_false (not (n == 0)))
                    (finish_fragment_lem used total n buf src h5 (omega arith) hu ht))
          ]))

  -- A header that was short of `k` bytes has come in.
  slow_path_header :
      (k : ℕ) (buf src : List ℕ)
      → length buf + k ≡ 5
      → k ≤ length src
      → All IsByte buf
      → All IsByte src
      → outcome (fill_fragment grow (length src) (buf ++ take k src) (drop k src))
        ≡ frame (length buf) (buf ++ src)
  slow_path_header k buf src hk le hb hs =
      let five : length (buf ++ take k src) ≡ 5 =
        omega (arith, length-append buf (take k src), length-take k src) in
      fill_fragment_lem (length buf) (length src) (buf ++ take k src) (drop k src) (omega arith)
        (All-append IsByte buf (take k src) hb (All-take IsByte k src hs)) (λ _. omega arith)
        (omega (arith, length-drop k src)) (omega (arith, length-drop k src))
      ∙ ap (frame (length buf))
          (append_assoc buf (take k src) (drop k src) ∙ ap (λ t. buf ++ t) (take-append-drop k src))

  slow_path_lem :
      (buf src : List ℕ)
      → Incomplete buf
      → All IsByte buf
      → All IsByte src
      → outcome (slow_path grow buf src) ≡ frame (length buf) (buf ++ src)
  unfolding slow_path
  slow_path_lem buf src hi hb hs =
      let k : ℕ = 5 - length buf in
      elim (Bool-cases (ltb (length buf) 5)) [
        | inr long ↦
            let h5 : 5 ≤ length buf = ltb→le _ _ long in
            rw (fill_header_full buf src h5) (
              fill_fragment_lem (length buf) (length src) buf src h5 hb
                (λ _. omega (arith, (hi h5).1)) refl (omega arith))
        | inl short ↦
            let lt : length buf < 5 = ltb→lt _ _ short in
            rw (fill_header_lem k buf src (omega arith)) (elim (Bool-cases (leb k (length src))) [
              | inl enough ↦
                  rw enough (slow_path_header k buf src (omega arith) (leb→le _ _ enough) hb hs)
              | inr few ↦
                  let lack : length src < k = leb→gt k (length src) few in
                  rw (few, take_le k src (omega arith))
                    (unfold outcome frame in
                      rw (lt→ltb (length (buf ++ src)) 5 (omega (arith, length-append buf src)))
                        refl)
            ])
      ]

  -- When memory is there, `parse_record` does what the specification says of the held bytes and
  -- the new ones taken together: it asks for more, rejects the header, or cuts out the first
  -- record and says how many of the new bytes that took.
  pub parse_record-frame :
      (recvbuf : Option (List ℕ)) (src : List ℕ)
      → Incomplete (held recvbuf)
      → All IsByte (held recvbuf)
      → All IsByte src
      → outcome (parse_record grow recvbuf src)
        ≡ frame (length (held recvbuf)) (held recvbuf ++ src)
  unfolding parse_record
  parse_record-frame (some buf) src hi hb hs = slow_path_lem buf src hi hb hs
  parse_record-frame none src hi hb hs =
      let slow : outcome (start_slow_path grow none src) ≡ frame 0 src =
        unfold start_slow_path in rw (room 0 5) (slow_path_lem [] src hi tt hs) in
      let rec : Rec = header_fields src in
      elim (Bool-cases (ltb (length src) 5)) [
        | inl short ↦ rw short slow
        | inr long ↦ rw long (elim (Bool-cases (ltb (size_limit rec.type) rec.length)) [
          | inl bad ↦ unfold parse_record_header outcome frame in rw (bad, long) refl
          | inr good ↦ elim (Bool-cases (leb (5 + rec.length) (length src))) [
            | inl whole ↦
                unfold parse_record_header outcome frame in
                rw (good, whole, long, le→ltb (length src) (5 + rec.length) (leb→le _ _ whole))
                  (ap (complete (record rec { fragment = some (take rec.length (drop 5 src)) }))
                    (omega arith))
            | inr part ↦ unfold parse_record_header in rw (good, part) slow
          ]
        ])
      ]
