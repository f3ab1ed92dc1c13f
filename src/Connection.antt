-- ===== src/Connection.antt =====
-- The input side of a connection, lib/picotls.c: `handle_alert`, `handle_input` and `ptls_receive`.
-- `S` is what the handlers of messages keep besides the fields here; `dispatch` is
-- `handle_client_handshake_message` or `handle_server_handshake_message`, whichever `is_server`
-- picks. `grow` says whether `ptls_buffer_reserve` finds memory, and `stale n` is what the memory
-- behind the application's buffer holds, which the source takes for data if nothing was decrypted.
pub mod Receive
use picotls.Prelude.{
  ℕ, zero, suc, ◌+◌, ◌-◌, ◌%◌, ◌^◌, Bool, true, false, not, ◌&&◌, ◌||◌, Option, none, some, List,
  ◌++◌, ltb, ◌==◌, if◌then◌else◌, length, get_or, drop, ok, err,
}
use picotls.Code.{
  error_in_progress, error_no_memory, alert_decode_error, alert_handshake_failure,
  alert_illegal_parameter, alert_unexpected_message, alert_to_peer_error,
}
use picotls.Record.{
  Parsed, parse_record, content_type_change_cipher_spec, content_type_alert, content_type_handshake,
  content_type_appdata,
}
use picotls.Message.{Handled, handle_handshake_record}
use picotls.Protect.{Aead, Protection, aead_decrypt, inner_plaintext}
use picotls.Handshake.{State, state_number, handshake_is_complete, server_expect_end_of_early_data}

abbrev pub max_early_data_skip_size : ℕ
max_early_data_skip_size = 65536

abbrev pub uint32_max : ℕ
uint32_max = 2 ^ 32 - 1

-- The fields of `ptls_t` that the input side reads and writes.
pub record Tls (Ctx S : Type 0) : Type 0 where
  pub is_server : Bool
  pub max_buffer_size : ℕ
  pub state : State
  pub dec : Protection Ctx
  pub early_data_skipped_bytes : ℕ
  pub recvbuf_rec : Option (List ℕ)
  pub recvbuf_mess : Option (List ℕ)
  pub others : S

-- The connection, `*decryptbuf` up to `off`, the return value and `*inlen` after a call.
pub record Input (Ctx S : Type 0) : Type 0 where
  pub tls : Tls Ctx S
  pub decryptbuf : List ℕ
  pub ret : ℕ
  pub consumed : ℕ

-- What is left of a record once it is opened; `decrypted` says whether it lies in `decryptbuf`.
pub record Opened : Type 0 where
  pub type : ℕ
  pub fragment : List ℕ
  pub decrypted : Bool

unfoldable pub handle_alert : List ℕ → ℕ
handle_alert fragment =
    if length fragment == 2 then alert_to_peer_error (get_or fragment 1 0) else alert_decode_error

module _ {Ctx S : Type 0} (a : Aead Ctx) (grow : ℕ → ℕ → Bool) (stale : ℕ → List ℕ)
    (dispatch : Tls Ctx S → List ℕ → Bool → Tls Ctx S × ℕ) where
  -- `NextRecord`: the record's buffer is disposed of.
  abbrev next_record : ℕ → Tls Ctx S → List ℕ → ℕ → Input Ctx S
  next_record consumed tls buf ret = record {
    tls = record tls { recvbuf_rec = none };
    decryptbuf = buf;
    ret = ret;
    consumed = consumed;
  }

  abbrev return : ℕ → Tls Ctx S → List ℕ → ℕ → Input Ctx S
  return consumed tls buf ret = record {
    tls = tls;
    decryptbuf = buf;
    ret = ret;
    consumed = consumed;
  }

  -- `ServerSkipEarlyData`, for a record of `len` bytes.
  unfoldable pub skip_early_data : ℕ → Tls Ctx S → List ℕ → ℕ → Input Ctx S
  skip_early_data consumed tls buf len =
      let skipped = (tls.early_data_skipped_bytes + len % 2 ^ 32) % 2 ^ 32 in
      let tls' : Tls Ctx S = record tls { early_data_skipped_bytes = skipped } in
      if ltb max_early_data_skip_size skipped
      then return consumed tls' buf alert_handshake_failure
      else next_record consumed tls' buf error_in_progress

  -- The bytes that `decryptbuf->off += rec.length` adds to the buffer.
  abbrev added : Opened → List ℕ
  added rec = if rec.decrypted then rec.fragment else stale (length rec.fragment)

  unfoldable pub handle_appdata : ℕ → Tls Ctx S → List ℕ → Opened → Input Ctx S
  handle_appdata consumed tls buf rec =
      if handshake_is_complete tls.state
      then next_record consumed tls (buf ++ added rec) 0
      else if state_number tls.state == state_number server_expect_end_of_early_data
      then next_record consumed tls (if rec.decrypted then buf ++ rec.fragment else buf) 0
      else next_record consumed tls buf alert_unexpected_message

  unfoldable pub handle_handshake : ℕ → Tls Ctx S → List ℕ → Opened → Input Ctx S
  handle_handshake consumed tls buf rec =
      let h : Handled (Tls Ctx S) =
        handle_handshake_record dispatch tls.max_buffer_size grow tls.recvbuf_mess tls rec.type
          rec.fragment in
      next_record consumed (record h.state { recvbuf_mess = h.mess }) buf h.ret

  abbrev has_partial_message : Tls Ctx S → Bool
  has_partial_message tls = elim tls.recvbuf_mess [ none ↦ false | some mess ↦ true ]

  -- The record once it is opened.
  unfoldable pub handle_opened : ℕ → Tls Ctx S → List ℕ → Opened → Input Ctx S
  unfolding handle_appdata handle_handshake
  handle_opened consumed tls buf rec =
      if has_partial_message tls || rec.type == content_type_handshake
      then handle_handshake consumed tls buf rec
      else if rec.type == content_type_appdata
      then handle_appdata consumed tls buf rec
      else if rec.type == content_type_alert
      then next_record consumed tls buf (handle_alert rec.fragment)
      else next_record consumed tls buf alert_unexpected_message

  abbrev skips : Tls Ctx S → Bool
  skips tls = tls.is_server && not (tls.early_data_skipped_bytes == uint32_max)

  -- "skip padding"
  unfoldable pub handle_plaintext : ℕ → Tls Ctx S → List ℕ → List ℕ → Input Ctx S
  unfolding handle_opened
  handle_plaintext consumed tls buf text = elim (inner_plaintext text) [
    | none ↦ return consumed tls buf alert_unexpected_message
    | some (type, front) ↦
        handle_opened consumed tls buf (record { type = type; fragment = front; decrypted = true })
  ]

  unfoldable pub handle_encrypted : ℕ → Tls Ctx S → List ℕ → Ctx → ℕ → List ℕ → Input Ctx S
  unfolding handle_plaintext skip_early_data
  handle_encrypted consumed tls buf k type fragment =
      if not (type == content_type_appdata)
      then return consumed tls buf alert_handshake_failure
      else if not (grow (length buf) (5 + length fragment))
      then return consumed tls buf error_no_memory
      else elim (aead_decrypt a k tls.dec.seq fragment) [
        | ok (text, seq) ↦
            handle_plaintext consumed (record tls { dec = record tls.dec { seq = seq } }) buf text
        | err code ↦
            if skips tls
            then skip_early_data consumed tls buf (length fragment)
            else return consumed tls buf code
      ]

  unfoldable pub handle_change_cipher_spec : ℕ → Tls Ctx S → List ℕ → List ℕ → Input Ctx S
  handle_change_cipher_spec consumed tls buf fragment =
      if handshake_is_complete tls.state
      then return consumed tls buf alert_handshake_failure
      else if length fragment == 1 && get_or fragment 0 0 == 1
      then next_record consumed tls buf error_in_progress
      else return consumed tls buf alert_illegal_parameter

  unfoldable pub handle_unencrypted : ℕ → Tls Ctx S → List ℕ → ℕ → List ℕ → Input Ctx S
  unfolding handle_opened skip_early_data
  handle_unencrypted consumed tls buf type fragment =
      if type == content_type_appdata && skips tls
      then skip_early_data consumed tls buf (length fragment)
      else handle_opened consumed tls buf
          (record { type = type; fragment = fragment; decrypted = false })

  -- A record that `parse_record` has cut out.
  unfoldable pub handle_record : ℕ → Tls Ctx S → List ℕ → ℕ → List ℕ → Input Ctx S
  handle_record consumed tls buf type fragment =
      if type == content_type_change_cipher_spec
      then handle_change_cipher_spec consumed tls buf fragment
      else if type == content_type_alert
      then handle_unencrypted consumed tls buf type fragment
      else elim tls.dec.aead [
        | some k ↦ handle_encrypted consumed tls buf k type fragment
        | none ↦ handle_unencrypted consumed tls buf type fragment
      ]

  -- The source asserts that a record without an error has its fragment.
  unfoldable pub handle_parsed : Tls Ctx S → List ℕ → Parsed → Input Ctx S
  handle_parsed tls buf p =
      let tls' : Tls Ctx S = record tls { recvbuf_rec = p.recvbuf } in
      if p.ret == 0
      then elim p.rec.fragment [
        | some fragment ↦ handle_record p.consumed tls' buf p.rec.type fragment
        | none ↦ return p.consumed tls' buf error_in_progress
      ]
      else return p.consumed tls' buf p.ret

  unfoldable pub handle_input : Tls Ctx S → List ℕ → List ℕ → Input Ctx S
  handle_input tls buf input = handle_parsed tls buf (parse_record grow tls.recvbuf_rec input)

  -- The loop of `ptls_receive`; `orig` is `decryptbuf_orig_size`. A round that goes on has consumed
  -- a byte at least.
  unfoldable pub receive_rounds : ℕ → ℕ → Tls Ctx S → List ℕ → List ℕ → Input Ctx S
  receive_rounds zero orig tls buf input = return 0 tls buf 0
  receive_rounds (suc rounds) orig tls buf input =
      let step = handle_input tls buf input in
      let later = receive_rounds rounds orig step.tls step.decryptbuf (drop step.consumed input) in
      if length input == 0 || not (length buf == orig)
      then return 0 tls buf 0
      else if step.ret == 0 || step.ret == error_in_progress
      then record later { consumed = step.consumed + later.consumed }
      else step

  unfoldable pub receive : Tls Ctx S → List ℕ → List ℕ → Input Ctx S
  receive tls buf input = receive_rounds (length input) (length buf) tls buf input
