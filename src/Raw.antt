-- ===== src/Raw.antt =====
-- The raw message interface, lib/picotls.c: the emitter `begin_raw_message` and
-- `commit_raw_message`, and `ptls_handle_message` with the functions of both sides. A commit is
-- `none` where the source's assertion fails. `send_client_hello` and `dispatch` are arguments.
pub mod Slices
pub mod Epochs
use picotls.Prelude.{
  ℕ, zero, suc, ◌+◌, Bool, true, false, not, ◌&&◌, Option, none, some, List, [], ◌∷◌, ◌++◌, ◌==◌,
  if◌then◌else◌, length, get_or,
}
use mathlib.Core.Option
use picotls.Code.{alert_unexpected_message}
use picotls.Record.{content_type_handshake}
use picotls.Message.{Handled, handle_handshake_record}
use picotls.Handshake.{get_read_epoch, handshake_type_client_hello}
use picotls.Connection.{Tls}
use picotls.Send.{message_body}

-- The emitter: the send buffer up to `off`, and `epoch_offsets`, which has five entries.
pub record Emitter : Type 0 where
  pub buf : List ℕ
  pub epoch_offsets : List ℕ

-- `self->start_off`
unfoldable pub begin_raw_message : Emitter → ℕ
begin_raw_message self = length self.buf

-- The epoch of a message, from the one of the sender's keys and its type.
unfoldable pub message_epoch : ℕ → ℕ → ℕ
message_epoch enc_epoch type =
    if enc_epoch == 1 && type == handshake_type_client_hello then 0 else enc_epoch

-- The loop, for the entries that are left; `kept` of them stay as they are.
unfoldable pub move_offsets : ℕ → ℕ → ℕ → List ℕ → Option (List ℕ)
move_offsets kept start_off off [] = some []
move_offsets (suc kept) start_off off (o ∷ os) =
    Option.map (λ rest. o ∷ rest) (move_offsets kept start_off off os)
move_offsets zero start_off off (o ∷ os) =
    let rest = Option.map (λ rest. off ∷ rest) (move_offsets zero start_off off os) in
    if o == start_off then rest else none

unfoldable pub commit_raw_message : ℕ → ℕ → Emitter → Option Emitter
unfolding move_offsets message_epoch
commit_raw_message enc_epoch start_off self =
    Option.map (λ offsets. record self { epoch_offsets = offsets })
      (move_offsets (suc (message_epoch enc_epoch (get_or self.buf start_off 0))) start_off
        (length self.buf) self.epoch_offsets)

-- `ptls_push_message` through this emitter.
unfoldable pub push_raw_message : ℕ → Emitter → ℕ → List ℕ → Option Emitter
unfolding begin_raw_message commit_raw_message
push_raw_message enc_epoch self type body =
    commit_raw_message enc_epoch (begin_raw_message self)
      (record self { buf = self.buf ++ message_body type body })

-- A message to push: the epoch of the keys at that time, the type and the body.
pub record Pushed : Type 0 where
  pub enc_epoch : ℕ
  pub type : ℕ
  pub body : List ℕ

unfoldable pub push_raw_messages : Emitter → List Pushed → Option Emitter
unfolding push_raw_message
push_raw_messages self [] = some self
push_raw_messages self (m ∷ ms) = elim (push_raw_message m.enc_epoch self m.type m.body) [
  | none ↦ none
  | some self' ↦ push_raw_messages self' ms
]

module _ {Ctx S : Type 0} (grow : ℕ → ℕ → Bool)
    (dispatch : Tls Ctx S → List ℕ → Bool → Tls Ctx S × ℕ) where
  -- Behind the check of the epoch, the same on both sides.
  unfoldable pub handle_raw_record : Tls Ctx S → ℕ → List ℕ → Tls Ctx S × ℕ
  handle_raw_record tls in_epoch input =
      let h : Handled (Tls Ctx S) =
        handle_handshake_record dispatch tls.max_buffer_size grow tls.recvbuf_mess tls
          content_type_handshake input in
      if get_read_epoch tls.state == in_epoch
      then (record h.state { recvbuf_mess = h.mess }, h.ret)
      else (tls, alert_unexpected_message)

  -- `input` is none for NULL; the source asserts that a server's is not.
  unfoldable pub handle_message :
      (Tls Ctx S → Tls Ctx S × ℕ) → Tls Ctx S → ℕ → Option (List ℕ) → Tls Ctx S × ℕ
  unfolding handle_raw_record
  handle_message send_client_hello tls in_epoch none = send_client_hello tls
  handle_message send_client_hello tls in_epoch (some input) = handle_raw_record tls in_epoch input
