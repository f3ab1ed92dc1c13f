-- ===== src/Message.antt =====
-- Reassembly of handshake messages from records, lib/picotls.c: `handle_handshake_record` and
-- `message_buffer_is_overflow`. The handler `cb` is an argument, as in the source: it takes the
-- state, a message and `is_end_of_record`, and returns the new state and a return code.
-- `tls->recvbuf.mess` is `none` while its base is NULL; `grow off delta` says whether
-- `ptls_buffer_reserve` finds the memory.
pub mod Cuts
pub mod Loop
pub mod Stream
pub mod Limit
use picotls.Prelude.{
  ℕ, zero, suc, ◌+◌, Bool, true, false, not, ◌||◌, Option, none, some, List, [], ◌++◌, ltb, leb,
  ◌==◌, if◌then◌else◌, length, get_or, take, drop,
}
use picotls.Code.{alert_decode_error, alert_handshake_failure, error_in_progress, error_no_memory}
use picotls.Wire.{ntoh24}
use picotls.Record.{content_type_handshake}

unfoldable pub message_buffer_is_overflow : ℕ → ℕ → Bool
message_buffer_is_overflow max_buffer_size size =
    if max_buffer_size == 0 then false else if leb size max_buffer_size then false else true

-- `4 + ntoh24(src + 1)`
unfoldable pub message_length : List ℕ → ℕ
message_length src = 4 + ntoh24 (get_or src 1 0) (get_or src 2 0) (get_or src 3 0)

-- The loop goes on: there is a header, and the whole message behind it.
unfoldable pub has_message : List ℕ → Bool
has_message src = if ltb (length src) 4 then false else not (ltb (length src) (message_length src))

-- `case 0: case PTLS_ERROR_IN_PROGRESS:`
abbrev pub goes_on : ℕ → Bool
goes_on ret = ret == 0 || ret == error_in_progress

-- The state, what is left of the input, the return code, and whether the handler failed.
pub record Progress {ℓ} (S : Type ℓ) : Type ℓ where
  pub state : S
  pub src : List ℕ
  pub ret : ℕ
  pub failed : Bool

-- The connection's state, `tls->recvbuf.mess` and the return value after a call.
pub record Handled {ℓ} (S : Type ℓ) : Type ℓ where
  pub state : S
  pub mess : Option (List ℕ)
  pub ret : ℕ

module _ {ℓ} {S : Type ℓ} (cb : S → List ℕ → Bool → S × ℕ) where
  -- A round takes four bytes at least, so `length src` rounds are enough.
  unfoldable pub handle_messages : ℕ → S → List ℕ → ℕ → Progress S
  handle_messages zero s src ret = record { state = s; src = src; ret = ret; failed = false }
  handle_messages (suc rounds) s src ret =
      let len = message_length src in
      let (s', ret') = cb s (take len src) (length src == len) in
      let next = handle_messages rounds s' (drop len src) ret' in
      let done =
        if goes_on ret'
        then next
        else record { state = s'; src = src; ret = ret'; failed = true } in
      if has_message src then done else record { state = s; src = src; ret = ret; failed = false }

  -- "keep last partial message in buffer"; `mess` is the buffer as the loop found it.
  unfoldable pub keep_partial : ℕ → (ℕ → ℕ → Bool) → Option (List ℕ) → Progress S → Handled S
  unfolding message_buffer_is_overflow
  keep_partial max_buffer_size grow mess p =
      if p.failed || length p.src == 0
      then record { state = p.state; mess = none; ret = p.ret }
      else if message_buffer_is_overflow max_buffer_size (length p.src)
      then record { state = p.state; mess = mess; ret = alert_handshake_failure }
      else elim mess [
        | none ↦
            if grow 0 (length p.src)
            then record { state = p.state; mess = some p.src; ret = error_in_progress }
            else record { state = p.state; mess = some []; ret = error_no_memory }
        | some _ ↦ record { state = p.state; mess = some p.src; ret = error_in_progress }
      ]

  unfoldable pub run_messages : ℕ → (ℕ → ℕ → Bool) → Option (List ℕ) → S → List ℕ → Handled S
  unfolding handle_messages keep_partial
  run_messages max_buffer_size grow mess s src =
      keep_partial max_buffer_size grow mess (handle_messages (length src) s src error_in_progress)

  -- "flatten the unhandled messages", then handle them.
  unfoldable pub flatten_and_run : ℕ → (ℕ → ℕ → Bool) → Option (List ℕ) → S → List ℕ → Handled S
  unfolding run_messages message_buffer_is_overflow
  flatten_and_run max_buffer_size grow none s fragment =
      run_messages max_buffer_size grow none s fragment
  flatten_and_run max_buffer_size grow (some buf) s fragment =
      if message_buffer_is_overflow max_buffer_size (length buf + length fragment)
      then record { state = s; mess = some buf; ret = alert_handshake_failure }
      else if grow (length buf) (length fragment)
      then run_messages max_buffer_size grow (some (buf ++ fragment)) s (buf ++ fragment)
      else record { state = s; mess = some buf; ret = error_no_memory }

  unfoldable pub handle_handshake_record :
      ℕ → (ℕ → ℕ → Bool) → Option (List ℕ) → S → ℕ → List ℕ → Handled S
  unfolding flatten_and_run
  handle_handshake_record max_buffer_size grow mess s type fragment =
      if not (type == content_type_handshake)
      then record { state = s; mess = mess; ret = alert_decode_error }
      else flatten_and_run max_buffer_size grow mess s fragment
