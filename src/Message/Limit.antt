-- ===== src/Message/Limit.antt =====
-- With a limit set, the message buffer never holds more than it.
use picotls.Prelude.{
  ℕ, ◌+◌, ◌≤◌, ◌<◌, ◌≡◌, inl, inr, Bool, false, Option, none, some, List, ◌++◌, arith, ◌==◌,
  Bool-cases, length, length-append,
}
use picotls.Code.{error_in_progress}
use picotls.Record.{content_type_handshake}
use picotls.Message.{
  Progress, message_buffer_is_overflow, handle_messages, keep_partial, flatten_and_run,
  handle_handshake_record,
}

abbrev pub WithinLimit : ℕ → Option (List ℕ) → Type 0
WithinLimit limit none = Unit
WithinLimit limit (some buf) = length buf ≤ limit

module _ {ℓ} {S : Type ℓ} (cb : S → List ℕ → Bool → S × ℕ) (limit : ℕ) (set_limit : 0 < limit)
    (grow : ℕ → ℕ → Bool) where
  overflow_le : (size : ℕ) → message_buffer_is_overflow limit size ≡ false → size ≤ limit
  unfolding message_buffer_is_overflow
  overflow_le size h = ground arith

  keep_partial-WithinLimit :
      (mess : Option (List ℕ)) (p : Progress S)
      → WithinLimit limit mess
      → WithinLimit limit (keep_partial cb limit grow mess p).mess
  unfolding keep_partial
  keep_partial-WithinLimit none p h = ground (arith, overflow_le (length p.src))
  keep_partial-WithinLimit (some buf) p h = ground (arith, overflow_le (length p.src))

  flatten_and_run-WithinLimit :
      (mess : Option (List ℕ)) (s : S) (fragment : List ℕ)
      → WithinLimit limit mess
      → WithinLimit limit (flatten_and_run cb limit grow mess s fragment).mess
  unfolding flatten_and_run
  flatten_and_run-WithinLimit none s fragment h =
      keep_partial-WithinLimit none
        (handle_messages cb (length fragment) s fragment error_in_progress) tt
  flatten_and_run-WithinLimit (some buf) s fragment h =
      let p = handle_messages cb (length (buf ++ fragment)) s (buf ++ fragment) error_in_progress in
      elim (Bool-cases (message_buffer_is_overflow limit (length buf + length fragment))) [
        | inl over ↦ rw over h
        | inr fits ↦ rw fits (elim (Bool-cases (grow (length buf) (length fragment))) [
          | inl room ↦ rw room (
              keep_partial-WithinLimit (some (buf ++ fragment)) p
                (omega (arith, overflow_le _ fits, length-append buf fragment)))
          | inr no_room ↦ rw no_room h
        ])
      ]

  -- With a limit set, a call leaves at most that many bytes in the message buffer, on every path:
  -- also when the handler fails, the limit is met or memory runs out.
  pub handle_handshake_record-WithinLimit :
      (mess : Option (List ℕ)) (s : S) (type : ℕ) (fragment : List ℕ)
      → WithinLimit limit mess
      → WithinLimit limit (handle_handshake_record cb limit grow mess s type fragment).mess
  unfolding handle_handshake_record
  handle_handshake_record-WithinLimit mess s type fragment h =
      elim (Bool-cases (type == content_type_handshake)) [
        | inl handshake ↦ rw handshake (flatten_and_run-WithinLimit mess s fragment h)
        | inr other ↦ rw other h
      ]
