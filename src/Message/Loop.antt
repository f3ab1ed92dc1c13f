-- ===== src/Message/Loop.antt =====
-- The loop over the messages of one input.
use picotls.Prelude.{
  ℕ, zero, suc, ◌≤◌, ◌≡◌, refl, sym, ap, ◌∙◌, inl, inr, Bool, Bool-cases, true, false, Option, none,
  some, List, [], ◌∷◌, ◌++◌, append_assoc, arith, if◌then◌else◌, ◌==◌, ◌||◌, length, length-append,
  take-append_length, drop-append_length,
}
use mathlib.Core.Path.{ap₂}
use picotls.Code.{error_in_progress}
use picotls.Message.{Progress, has_message, goes_on, handle_messages}
use picotls.Message.Cuts.{Framed, Cuts, partial, message, message_length-append, Framed-has_message}

abbrev pub bytes_of : List (List ℕ) → List ℕ
bytes_of [] = []
bytes_of (f ∷ fs) = f ++ bytes_of fs

bytes_of-Cuts :
    {src rest : List ℕ} {ms : List (List ℕ)} → Cuts src ms rest → src ≡ bytes_of ms ++ rest
bytes_of-Cuts (partial src h) = refl
bytes_of-Cuts {rest = rest} (message {ms = ms} m f e c) =
    e ∙ ap (λ t. m ++ t) (bytes_of-Cuts c) ∙ sym (append_assoc m (bytes_of ms) rest)

-- The codes by which a handler takes a message: 0 and PTLS_ERROR_IN_PROGRESS.
abbrev pub is_fine : ℕ → Bool
is_fine ret = ret == 0 || ret == error_in_progress

module _ {ℓ} {S : Type ℓ} (react : S → List ℕ → S × ℕ) where
  -- A handler that does not look at `is_end_of_record`.
  abbrev pub handler : S → List ℕ → Bool → S × ℕ
  handler s m is_end = react s m

  -- The messages handled one after the other: the state, and the code of the first that failed,
  -- behind which none is handled.
  abbrev pub outcome : S → List (List ℕ) → S × Option ℕ
  outcome s [] = (s, none)
  outcome s (m ∷ ms) =
      let (s', ret) = react s m in
      let later = outcome s' ms in if is_fine ret then later else (s', some ret)

  abbrev pub outcome_behind : S × Option ℕ → List (List ℕ) → S × Option ℕ
  outcome_behind (s, none) ns = outcome s ns
  outcome_behind (s, some code) ns = (s, some code)

  pub outcome-append :
      (s : S) (ms ns : List (List ℕ)) → outcome s (ms ++ ns) ≡ outcome_behind (outcome s ms) ns
  outcome-append s [] ns = refl
  outcome-append s (m ∷ ms) ns = elim (Bool-cases (goes_on (react s m).1)) [
    | inl on ↦ rw on (outcome-append (react s m).0 ms ns)
    | inr off ↦ rw off refl
  ]

  -- What the loop over the messages of one input leaves.
  abbrev pub progress : S → ℕ → List (List ℕ) → List ℕ → Progress S
  progress s ret [] rest = record { state = s; src = rest; ret = ret; failed = false }
  progress s ret (m ∷ ms) rest =
      let (s', ret') = react s m in
      let later = progress s' ret' ms rest in
      if goes_on ret'
      then later
      else record { state = s'; src = m ++ (bytes_of ms ++ rest); ret = ret'; failed = true }

  stop_here :
      (n : ℕ) (s : S) (src : List ℕ) (ret : ℕ)
      → has_message src ≡ false
      → handle_messages handler n s src ret
        ≡ record { state = s; src = src; ret = ret; failed = false }
  unfolding handle_messages
  stop_here zero s src ret h = refl
  stop_here (suc n) s src ret h = rw h refl

  one_message :
      (n : ℕ) (s : S) (m src : List ℕ) (ret : ℕ)
      → Framed m
      → handle_messages handler (suc n) s (m ++ src) ret ≡ (
          if goes_on (react s m).1
          then handle_messages handler n (react s m).0 src (react s m).1
          else record { state = (react s m).0; src = m ++ src; ret = (react s m).1; failed = true })
  unfolding handle_messages
  one_message n s m src ret f =
      rw
        (
          Framed-has_message m src f,
          message_length-append m src f.0,
          f.1,
          take-append_length m src,
          drop-append_length m src,
        )
        refl

  pub handle_messages-Cuts :
      (n : ℕ) (s : S) (ret : ℕ) {src rest : List ℕ} {ms : List (List ℕ)}
      → Cuts src ms rest
      → length src ≤ n
      → handle_messages handler n s src ret ≡ progress s ret ms rest
  handle_messages-Cuts n s ret (partial src h) le = stop_here n s src ret h
  handle_messages-Cuts zero s ret (message {src = src} m f e c) le =
      absurd (omega (arith, ap length e, length-append m src, f.0))
  handle_messages-Cuts (suc n) s ret {rest = rest} (message {src = src} {ms = ms} m f e c) le =
      let (s', ret') = react s m in
      ap (λ t. handle_messages handler (suc n) s t ret) e
      ∙ one_message n s m src ret f
      ∙ ap₂
          (λ p t.
            if goes_on ret'
            then p
            else record { state = s'; src = m ++ t; ret = ret'; failed = true })
          (handle_messages-Cuts n s' ret' c (omega (arith, ap length e, length-append m src, f.0)))
          (bytes_of-Cuts c)
