-- ===== src/Tests/Message.antt =====
-- Handshake messages reassembled at concrete inputs.
use picotls.Prelude.{
  ℕ, ◌+◌, ◌≡◌, refl, Bool, true, false, none, some, List, [], ◌∷◌, ◌++◌, arith, get_or,
  if◌then◌else◌, ◌==◌,
}
use picotls.Message.{has_message, message_length, handle_handshake_record}
use picotls.Wire.{ntoh24}
use picotls.Message.Loop.{is_fine}
use picotls.Message.Cuts.{Cuts, message, partial}
use picotls.Message.Stream.{deliver, deliver-Cuts}
use picotls.Message.Limit.{WithinLimit, handle_handshake_record-WithinLimit}

abbrev always : ℕ → ℕ → Bool
always off delta = true

-- The handler that keeps the messages it is given, and fails on one that begins with 99.
abbrev log : List (List ℕ) → List ℕ → List (List ℕ) × ℕ
log ms m = (ms ++ m ∷ [], if get_or m 0 0 == 99 then 10 else 0)

abbrev first : List ℕ
first = 1 ∷ 0 ∷ 0 ∷ 2 ∷ 7 ∷ 8 ∷ []

no_message : has_message (20 ∷ 0 ∷ []) ≡ false
unfolding has_message message_length
no_message = refl

abbrev bad : List ℕ
bad = 99 ∷ 0 ∷ 0 ∷ 0 ∷ []

-- A message over two records, one that the handler refuses, and the start of a third.
two_records : Cuts (first ++ (bad ++ 20 ∷ 0 ∷ [])) (first ∷ bad ∷ []) (20 ∷ 0 ∷ [])
unfolding message_length ntoh24
two_records =
    message first (omega arith, refl) refl
      (message bad (omega arith, refl) refl (partial (20 ∷ 0 ∷ []) no_message))

deliver-Cuts_example :
    (deliver log always none [] ((1 ∷ 0 ∷ 0 ∷ []) ∷ (2 ∷ 7 ∷ 8 ∷ (bad ++ 20 ∷ 0 ∷ [])) ∷ [])
      ≡ record { state = first ∷ bad ∷ []; mess = none; ret = 10 })
    × (is_fine 10 ≡ false)
deliver-Cuts_example =
    deliver-Cuts log always (λ off delta. refl) []
      ((1 ∷ 0 ∷ 0 ∷ []) ∷ (2 ∷ 7 ∷ 8 ∷ (bad ++ 20 ∷ 0 ∷ [])) ∷ []) (first ∷ bad ∷ []) (20 ∷ 0 ∷ [])
      two_records

-- A handler that refuses everything.
abbrev refuse : ℕ → List ℕ → Bool → ℕ × ℕ
refuse s m is_end = (s + 1, 10)

handle_handshake_record-WithinLimit_example :
    WithinLimit 4
      (handle_handshake_record refuse 4 always (some (1 ∷ 0 ∷ [])) 0 22 (0 ∷ 9 ∷ 9 ∷ [])).mess
handle_handshake_record-WithinLimit_example =
    handle_handshake_record-WithinLimit refuse 4 (omega arith) always (some (1 ∷ 0 ∷ [])) 0 22
      (0 ∷ 9 ∷ 9 ∷ []) (omega arith)
