-- ===== src/Handshake.antt =====
-- The handshake's state machine, lib/picotls.c: `enum en_ptls_state_t`, the dispatch in
-- `handle_client_handshake_message` and `handle_server_handshake_message`, `ptls_get_read_epoch`
-- and `ptls_handshake_is_complete`. The handlers of single messages are arguments: `run h` is the
-- call of handler `h` on the connection and the message. What a handler does to `tls->state` is
-- `Moves`, read off its assignments.
pub mod ClientOrder
pub mod ServerOrder
pub mod Epochs
use picotls.Prelude.{
  ℕ, ◌≡◌, ◌⊎◌, Bool, ◌&&◌, List, [], ◌∷◌, leb, ◌==◌, if◌then◌else◌, get_or, Result, ok, err,
}
use picotls.Code.{alert_handshake_failure, alert_internal_error, alert_unexpected_message}

abbrev pub handshake_type_client_hello : ℕ
handshake_type_client_hello = 1

abbrev pub handshake_type_server_hello : ℕ
handshake_type_server_hello = 2

abbrev pub handshake_type_new_session_ticket : ℕ
handshake_type_new_session_ticket = 4

abbrev pub handshake_type_end_of_early_data : ℕ
handshake_type_end_of_early_data = 5

abbrev pub handshake_type_encrypted_extensions : ℕ
handshake_type_encrypted_extensions = 8

abbrev pub handshake_type_certificate : ℕ
handshake_type_certificate = 11

abbrev pub handshake_type_certificate_request : ℕ
handshake_type_certificate_request = 13

abbrev pub handshake_type_certificate_verify : ℕ
handshake_type_certificate_verify = 15

abbrev pub handshake_type_finished : ℕ
handshake_type_finished = 20

abbrev pub handshake_type_key_update : ℕ
handshake_type_key_update = 24

abbrev pub handshake_type_compressed_certificate : ℕ
handshake_type_compressed_certificate = 25

pub data State : Type 0 where
  client_handshake_start client_expect_server_hello client_expect_second_server_hello : State
  client_expect_encrypted_extensions : State
  client_expect_certificate_request_or_certificate : State
  client_expect_certificate client_expect_certificate_verify client_expect_finished : State
  server_expect_client_hello server_expect_second_client_hello server_expect_certificate : State
  server_expect_certificate_verify server_expect_end_of_early_data server_expect_finished : State
  client_post_handshake server_post_handshake : State

-- The enum's values, in the source's order.
unfoldable pub state_number : State → ℕ
state_number client_handshake_start = 0
state_number client_expect_server_hello = 1
state_number client_expect_second_server_hello = 2
state_number client_expect_encrypted_extensions = 3
state_number client_expect_certificate_request_or_certificate = 4
state_number client_expect_certificate = 5
state_number client_expect_certificate_verify = 6
state_number client_expect_finished = 7
state_number server_expect_client_hello = 8
state_number server_expect_second_client_hello = 9
state_number server_expect_certificate = 10
state_number server_expect_certificate_verify = 11
state_number server_expect_end_of_early_data = 12
state_number server_expect_finished = 13
state_number client_post_handshake = 14
state_number server_post_handshake = 15

abbrev pub post_handshake_min : ℕ
post_handshake_min = 14

unfoldable pub handshake_is_complete : State → Bool
unfolding state_number
handshake_is_complete s = leb post_handshake_min (state_number s)

unfoldable pub get_read_epoch : State → ℕ
get_read_epoch client_handshake_start = 0
get_read_epoch client_expect_server_hello = 0
get_read_epoch client_expect_second_server_hello = 0
get_read_epoch server_expect_client_hello = 0
get_read_epoch server_expect_second_client_hello = 0
get_read_epoch server_expect_end_of_early_data = 1
get_read_epoch client_expect_encrypted_extensions = 2
get_read_epoch client_expect_certificate_request_or_certificate = 2
get_read_epoch client_expect_certificate = 2
get_read_epoch client_expect_certificate_verify = 2
get_read_epoch client_expect_finished = 2
get_read_epoch server_expect_certificate = 2
get_read_epoch server_expect_certificate_verify = 2
get_read_epoch server_expect_finished = 2
get_read_epoch client_post_handshake = 3
get_read_epoch server_post_handshake = 3

-- The functions that the two dispatchers call.
pub data Handler : Type 0 where
  client_handle_hello client_handle_encrypted_extensions : Handler
  client_handle_certificate_request client_handle_certificate : Handler
  client_handle_compressed_certificate client_handle_certificate_verify : Handler
  client_handle_finished client_handle_new_session_ticket : Handler
  server_handle_hello server_handle_certificate server_handle_certificate_verify : Handler
  server_handle_end_of_early_data server_handle_finished handle_key_update : Handler

-- `case PTLS_STATE_CLIENT_EXPECT_CERTIFICATE`, which the case above it falls through to.
unfoldable pub certificate_route : ℕ → Result Handler
certificate_route type =
    if type == handshake_type_certificate
    then ok client_handle_certificate
    else if type == handshake_type_compressed_certificate
    then ok client_handle_compressed_certificate
    else err alert_unexpected_message

abbrev pub only_if : Bool → Handler → ℕ → Result Handler
only_if admitted h code = if admitted then ok h else err code

-- Which call the client's `switch` makes for a state, a message type and `is_end_of_record`, or the
-- code it returns instead.
unfoldable pub client_route : State → ℕ → Bool → Result Handler
unfolding certificate_route
client_route client_expect_server_hello type is_end =
    only_if (type == handshake_type_server_hello && is_end) client_handle_hello
      alert_unexpected_message
client_route client_expect_second_server_hello type is_end =
    only_if (type == handshake_type_server_hello && is_end) client_handle_hello
      alert_unexpected_message
client_route client_expect_encrypted_extensions type is_end =
    only_if (type == handshake_type_encrypted_extensions) client_handle_encrypted_extensions
      alert_unexpected_message
client_route client_expect_certificate_request_or_certificate type is_end =
    if type == handshake_type_certificate_request
    then ok client_handle_certificate_request
    else certificate_route type
client_route client_expect_certificate type is_end = certificate_route type
client_route client_expect_certificate_verify type is_end =
    only_if (type == handshake_type_certificate_verify) client_handle_certificate_verify
      alert_unexpected_message
client_route client_expect_finished type is_end =
    only_if (type == handshake_type_finished && is_end) client_handle_finished
      alert_unexpected_message
client_route client_post_handshake type is_end =
    if type == handshake_type_new_session_ticket
    then ok client_handle_new_session_ticket
    else only_if (type == handshake_type_key_update) handle_key_update alert_unexpected_message
client_route _ type is_end = err alert_internal_error

unfoldable pub server_route : State → ℕ → Bool → Result Handler
server_route server_expect_client_hello type is_end =
    only_if (type == handshake_type_client_hello && is_end) server_handle_hello
      alert_handshake_failure
server_route server_expect_second_client_hello type is_end =
    only_if (type == handshake_type_client_hello && is_end) server_handle_hello
      alert_handshake_failure
server_route server_expect_certificate type is_end =
    only_if (type == handshake_type_certificate) server_handle_certificate alert_unexpected_message
server_route server_expect_certificate_verify type is_end =
    only_if (type == handshake_type_certificate_verify) server_handle_certificate_verify
      alert_unexpected_message
server_route server_expect_end_of_early_data type is_end =
    only_if (type == handshake_type_end_of_early_data) server_handle_end_of_early_data
      alert_unexpected_message
server_route server_expect_finished type is_end =
    only_if (type == handshake_type_finished && is_end) server_handle_finished
      alert_handshake_failure
server_route server_post_handshake type is_end =
    only_if (type == handshake_type_key_update) handle_key_update alert_unexpected_message
server_route _ type is_end = err alert_internal_error

-- The calls themselves, on a connection `S` whose `tls->state` is `state`.
module _ {ℓ} {S : Type ℓ} (state : S → State) (run : Handler → S → List ℕ → S × ℕ) where
  abbrev call : S → List ℕ → Result Handler → S × ℕ
  call s message (ok h) = run h s message
  call s message (err code) = (s, code)

  unfoldable pub handle_client_handshake_message : S → List ℕ → Bool → S × ℕ
  unfolding client_route
  handle_client_handshake_message s message is_end =
      call s message (client_route (state s) (get_or message 0 0) is_end)

  unfoldable pub handle_server_handshake_message : S → List ℕ → Bool → S × ℕ
  unfolding server_route
  handle_server_handshake_message s message is_end =
      call s message (server_route (state s) (get_or message 0 0) is_end)

-- The values of `tls->state` after a handler that has not failed, for the value before it. A
-- HelloRetryRequest sends the client to the second hello by `send_client_hello`; the server sends
-- one to a first ClientHello only. `psk` is `tls->is_psk_handshake`, which the ServerHello sets, and
-- which is read behind it.
abbrev pub Moves : Bool → Handler → State → State → Type 0
Moves psk client_handle_hello s s' =
    (s' ≡ client_expect_second_server_hello) ⊎ (s' ≡ client_expect_encrypted_extensions)
Moves psk client_handle_encrypted_extensions s s' =
    s' ≡ (if psk then client_expect_finished else client_expect_certificate_request_or_certificate)
Moves psk client_handle_certificate_request s s' = s' ≡ client_expect_certificate
Moves psk client_handle_certificate s s' = s' ≡ client_expect_certificate_verify
Moves psk client_handle_compressed_certificate s s' = s' ≡ client_expect_certificate_verify
Moves psk client_handle_certificate_verify s s' = s' ≡ client_expect_finished
Moves psk client_handle_finished s s' = s' ≡ client_post_handshake
Moves psk client_handle_new_session_ticket s s' = s' ≡ s
Moves psk server_handle_hello s s' =
    ((s ≡ server_expect_client_hello) × (s' ≡ server_expect_second_client_hello))
    ⊎ ((s' ≡ server_expect_end_of_early_data)
        ⊎ ((s' ≡ server_expect_certificate) ⊎ (s' ≡ server_expect_finished)))
Moves psk server_handle_certificate s s' = s' ≡ server_expect_certificate_verify
Moves psk server_handle_certificate_verify s s' = s' ≡ server_expect_finished
Moves psk server_handle_end_of_early_data s s' = s' ≡ server_expect_finished
Moves psk server_handle_finished s s' = s' ≡ server_post_handshake
Moves psk handle_key_update s s' = s' ≡ s

-- A run of one side: the types of the messages that its dispatcher passed on, and its state before
-- and after them.
pub data Run (psk : Bool) (route : State → ℕ → Bool → Result Handler)
    : State → List ℕ → State → Type 0 where
  done : {s : State} → Run psk route s [] s
  message :
      {s t u : State} (type : ℕ) (is_end : Bool) (h : Handler) {types : List ℕ}
      → route s type is_end ≡ ok h
      → Moves psk h s t
      → Run psk route t types u
      → Run psk route s (type ∷ types) u
