-- ===== src/Tests/Record.antt =====
-- Records cut out of a stream at concrete inputs.
use picotls.Prelude.{ℕ, ◌≡◌, refl, Bool, true, none, some, List, [], ◌∷◌, arith}
use picotls.Record.{parse_record}
use picotls.Wire.{ntoh16}
use picotls.Record.{header_fields, missing}
use picotls.Record.Framing.{need_more, outcome, frame, parse_record-frame}
use picotls.Record.Chunks.{after, parse_record-append}

abbrev always : ℕ → ℕ → Bool
always off delta = true

-- A handshake record of four bytes, and the start of another.
abbrev stream : List ℕ
stream = 22 ∷ 3 ∷ 3 ∷ 0 ∷ 4 ∷ 1 ∷ 2 ∷ 3 ∷ 4 ∷ 22 ∷ []

parse_record-frame_example :
    outcome (parse_record always (some (22 ∷ 3 ∷ [])) (3 ∷ 0 ∷ 4 ∷ 1 ∷ 2 ∷ 3 ∷ 4 ∷ 22 ∷ []))
    ≡ frame 2 stream
parse_record-frame_example =
    parse_record-frame always (λ off delta. refl) (some (22 ∷ 3 ∷ []))
      (3 ∷ 0 ∷ 4 ∷ 1 ∷ 2 ∷ 3 ∷ 4 ∷ 22 ∷ []) (λ h. absurd (omega arith)) (omega arith) (omega arith)

first_call :
    outcome (parse_record always none (22 ∷ 3 ∷ 3 ∷ 0 ∷ 4 ∷ 1 ∷ []))
    ≡ need_more (22 ∷ 3 ∷ 3 ∷ 0 ∷ 4 ∷ 1 ∷ [])
unfolding outcome parse_record header_fields missing ntoh16
first_call = refl

parse_record-append_example :
    outcome (parse_record always (some (22 ∷ 3 ∷ 3 ∷ 0 ∷ 4 ∷ 1 ∷ [])) (2 ∷ 3 ∷ 4 ∷ 22 ∷ []))
    ≡ after 6 (outcome (parse_record always none stream))
parse_record-append_example =
    parse_record-append always none (22 ∷ 3 ∷ 3 ∷ 0 ∷ 4 ∷ 1 ∷ []) (2 ∷ 3 ∷ 4 ∷ 22 ∷ [])
      (22 ∷ 3 ∷ 3 ∷ 0 ∷ 4 ∷ 1 ∷ []) (λ off delta. refl) (λ h. absurd (omega arith)) (omega arith)
      (omega arith) (omega arith) first_call
