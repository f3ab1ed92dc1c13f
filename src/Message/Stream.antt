-- ===== src/Message/Stream.antt =====
-- Reassembly does not depend on how the messages are spread over records.
use picotls.Prelude.{
  ℕ, suc, ◌≡◌, refl, sym, Bool, true, false, Option, none, some, List, [], ◌∷◌, ◌++◌, append-nil,
  append_assoc, arith, if◌then◌else◌, length,
}
use mathlib.Core.Path.{subst}
use picotls.Code.{error_in_progress}
use picotls.Record.{content_type_handshake}
use picotls.Message.{
  Progress, Handled, message_buffer_is_overflow, has_message, goes_on, keep_partial, run_messages,
  handle_handshake_record,
}
use picotls.Message.Loop.{
  is_fine, bytes_of, handler, outcome, outcome_behind, outcome-append, progress,
  handle_messages-Cuts,
}
use picotls.Message.Cuts.{Cuts, partial, Cuts-append, cut_up, no_message, Cuts-rest, Cuts-unique}

-- No buffer is kept for nothing.
abbrev pub kept : List ℕ → Option (List ℕ)
kept [] = none
kept (b ∷ bs) = some (b ∷ bs)

abbrev pub held : Option (List ℕ) → List ℕ
held none = []
held (some buf) = buf

held-kept : (h : List ℕ) → held (kept h) ≡ h
held-kept [] = refl
held-kept (b ∷ bs) = refl

module _ {ℓ} {S : Type ℓ} (react : S → List ℕ → S × ℕ) where
  -- What the caller is left with: when nothing failed, the bytes of no whole message are kept and it
  -- goes on; a failure is returned, and nothing is kept.
  abbrev pub Outcome : S × Option ℕ → List ℕ → Handled S → Type ℓ
  Outcome (s, none) rest h = (h.state ≡ s) × (h.mess ≡ kept rest) × (is_fine h.ret ≡ true)
  Outcome (s, some code) rest h =
      (h ≡ record { state = s; mess = none; ret = code }) × (is_fine code ≡ false)

  -- Records handled one after the other, as long as the return code lets the caller go on.
  unfoldable pub deliver : (ℕ → ℕ → Bool) → Option (List ℕ) → S → List (List ℕ) → Handled S
  deliver grow mess s [] = record { state = s; mess = mess; ret = error_in_progress }
  deliver grow mess s (f ∷ fs) =
      let h = handle_handshake_record (handler react) 0 grow mess s content_type_handshake f in
      let later = deliver grow h.mess h.state fs in if goes_on h.ret then later else h

  module _ (grow : ℕ → ℕ → Bool) (room : (off delta : ℕ) → grow off delta ≡ true) where
    keep_partial-none :
        (mess : Option (List ℕ)) (s : S) (ret : ℕ) (rest : List ℕ)
        → goes_on ret ≡ true
        → Outcome
            (s, none)
            rest
            (keep_partial
              (handler react)
              0
              grow
              mess
              (record { state = s; src = rest; ret = ret; failed = false }))
    unfolding keep_partial message_buffer_is_overflow
    keep_partial-none none s ret [] on = (refl, refl, on)
    keep_partial-none (some buf) s ret [] on = (refl, refl, on)
    keep_partial-none none s ret (b ∷ bs) on = rw (room 0 (suc (length bs))) (ground arith)
    keep_partial-none (some buf) s ret (b ∷ bs) on = ground arith

    keep_partial-failed :
        (mess : Option (List ℕ)) (s : S) (src : List ℕ) (ret : ℕ)
        → keep_partial
            (handler react)
            0
            grow
            mess
            (record { state = s; src = src; ret = ret; failed = true })
          ≡ record { state = s; mess = none; ret = ret }
    unfolding keep_partial
    keep_partial-failed mess s src ret = refl

    if-Outcome :
        (c : Bool) (o o' : S × Option ℕ) (p p' : Progress S) (mess : Option (List ℕ))
        (rest : List ℕ)
        → (c ≡ true → Outcome o rest (keep_partial (handler react) 0 grow mess p))
        → (c ≡ false → Outcome o' rest (keep_partial (handler react) 0 grow mess p'))
        → Outcome
            (if c then o else o')
            rest
            (keep_partial (handler react) 0 grow mess (if c then p else p'))
    if-Outcome true o o' p p' mess rest h h' = h refl
    if-Outcome false o o' p p' mess rest h h' = h' refl

    keep_partial-Outcome :
        (mess : Option (List ℕ)) (s : S) (ret : ℕ) (ms : List (List ℕ)) (rest : List ℕ)
        → goes_on ret ≡ true
        → Outcome
            (outcome react s ms)
            rest
            (keep_partial (handler react) 0 grow mess (progress react s ret ms rest))
    keep_partial-Outcome mess s ret [] rest on = keep_partial-none mess s ret rest on
    keep_partial-Outcome mess s ret (m ∷ ms) rest on =
        let (s', ret') = react s m in
        let src : List ℕ = m ++ (bytes_of ms ++ rest) in
        if-Outcome (goes_on ret') (outcome react s' ms) (s', some ret')
          (progress react s' ret' ms rest)
          (record { state = s'; src = src; ret = ret'; failed = true }) mess rest
          (λ later. keep_partial-Outcome mess s' ret' ms rest later)
          (λ off. (keep_partial-failed mess s' src ret', off))

    run-Outcome :
        (mess : Option (List ℕ)) (s : S) (src : List ℕ) {rest : List ℕ} {ms : List (List ℕ)}
        → Cuts src ms rest
        → Outcome (outcome react s ms) rest (run_messages (handler react) 0 grow mess s src)
    unfolding run_messages
    run-Outcome mess s src {rest} {ms} c =
        subst (λ p. Outcome (outcome react s ms) rest (keep_partial (handler react) 0 grow mess p))
          (sym (handle_messages-Cuts react (length src) s error_in_progress c (omega arith)))
          (keep_partial-Outcome mess s error_in_progress ms rest refl)

    -- One record, with no limit on the buffer.
    record-Outcome :
        (mess : Option (List ℕ)) (s : S) (fragment : List ℕ) {rest : List ℕ} {ms : List (List ℕ)}
        → Cuts (held mess ++ fragment) ms rest
        → Outcome
            (outcome react s ms)
            rest
            (handle_handshake_record (handler react) 0 grow mess s content_type_handshake fragment)
    unfolding handle_handshake_record
    record-Outcome none s fragment c = run-Outcome none s fragment c
    record-Outcome (some buf) s fragment c =
        rw (room (length buf) (length fragment))
          (run-Outcome (some (buf ++ fragment)) s (buf ++ fragment) c)

    -- A record, and the ones behind it.
    record_first :
        (o : S × Option ℕ) (rest end : List ℕ) (ns fs : List (List ℕ)) (h : Handled S)
        → Outcome o rest h
        → Outcome (outcome react o.0 ns) end (deliver grow (kept rest) o.0 fs)
        → Outcome
            (outcome_behind react o ns)
            end
            (if goes_on h.ret then deliver grow h.mess h.state fs else h)
    record_first (s, none) rest end ns fs h (at_s, keeps, on) later = rw (on, at_s, keeps) later
    record_first (s, some code) rest end ns fs h (is, off) later = (rw (is, off) refl, off)

    deliver_from :
        (h : List ℕ) (s : S) (fs : List (List ℕ))
        → has_message h ≡ false
        → (ms : List (List ℕ)) × (rest : List ℕ) × Cuts (h ++ bytes_of fs) ms rest
          × Outcome (outcome react s ms) rest (deliver grow (kept h) s fs)
    unfolding deliver
    deliver_from h s [] w = ([], h, rw append-nil (partial h w), (refl, refl, refl))
    deliver_from h s (f ∷ fs) w =
        let (ms, rest, c) = cut_up (length (h ++ f)) (h ++ f) (omega arith) in
        let (ns, end, d, o) = deliver_from rest (outcome react s ms).0 fs (Cuts-rest c) in
        let first =
          handle_handshake_record (handler react) 0 grow (kept h) s content_type_handshake f in
        (
          ms ++ ns,
          end,
          subst (λ t. Cuts t (ms ++ ns) end) (append_assoc h f (bytes_of fs))
              (Cuts-append (bytes_of fs) c d),
          subst (λ t. Outcome t end (deliver grow (kept h) s (f ∷ fs)))
              (sym (outcome-append react s ms ns))
              (record_first (outcome react s ms) rest end ns fs first
                (record-Outcome (kept h) s f
                  (subst (λ t. Cuts (t ++ f) ms rest) (sym (held-kept h)) c))
                o),
        )

    -- With memory and no limit on the buffer, a handler that does not look at `is_end_of_record` is
    -- given the messages that the bytes of all the records hold, each once and in order, however
    -- they are spread over records. If it takes them all, by 0 or ERROR_IN_PROGRESS, then the bytes
    -- behind the last message stay in the buffer, and the code lets the caller go on. If it fails on
    -- one, it is given none behind it, its code is the result, and the buffer is gone.
    pub deliver-Cuts :
        (s : S) (fs : List (List ℕ)) (ms : List (List ℕ)) (rest : List ℕ)
        → Cuts (bytes_of fs) ms rest
        → Outcome (outcome react s ms) rest (deliver grow none s fs)
    deliver-Cuts s fs ms rest c =
        let (ns, end, d, o) = deliver_from [] s fs no_message in
        let (same_ms, same_rest) = Cuts-unique refl d c in
        subst (λ t. Outcome (outcome react s t) rest (deliver grow none s fs)) same_ms
          (subst (λ t. Outcome (outcome react s ns) t (deliver grow none s fs)) same_rest o)
