-- ===== src/Handshake/Epochs.antt =====
-- The keys that a side reads with only move forward.
use picotls.Prelude.{
  ℕ, ◌≤◌, ◌≡◌, refl, ap, true, false, if◌then◌else◌, inl, inr, Bool, List, arith, Result, ok,
}
use picotls.Handshake.{
  State, client_handshake_start, client_expect_server_hello, client_expect_second_server_hello,
  client_expect_encrypted_extensions, client_expect_certificate_request_or_certificate,
  client_expect_certificate, client_expect_certificate_verify, client_expect_finished,
  client_post_handshake, server_expect_client_hello, server_expect_second_client_hello,
  server_expect_certificate, server_expect_certificate_verify, server_expect_end_of_early_data,
  server_expect_finished, server_post_handshake, Handler, Moves, Run, done, message, client_route,
  server_route, certificate_route, get_read_epoch,
}
use picotls.Handshake.ClientOrder.{handler_is}
use picotls.Handshake.ClientOrder
use picotls.Handshake.ServerOrder

-- Where a message leads, the epoch is no smaller.
abbrev Forward : Bool → (State → ℕ → Bool → Result Handler) → Type 0
Forward psk route =
    (s : State) (type : ℕ) (is_end : Bool) (h : Handler) (t : State)
    → route s type is_end ≡ ok h
    → Moves psk h s t
    → get_read_epoch s ≤ get_read_epoch t

along :
    (psk : Bool) (route : State → ℕ → Bool → Result Handler) {s t : State} {types : List ℕ}
    → Forward psk route
    → Run psk route s types t
    → get_read_epoch s ≤ get_read_epoch t
along psk route {s = s} grows done = omega arith
along psk route grows (message {s = s} {t = t} type is_end h route_eq moves run) =
    omega (arith, grows s type is_end h t route_eq moves, along psk route grows run)

epoch_at : {t u : State} → t ≡ u → get_read_epoch t ≡ get_read_epoch u
epoch_at e = ap get_read_epoch e

certificate_grows :
    (psk : Bool) (s : State) (type : ℕ) (is_end : Bool) (h : Handler) (t : State)
    → certificate_route type ≡ ok h
    → Moves psk h s t
    → get_read_epoch t ≡ 2
unfolding get_read_epoch
certificate_grows psk s type is_end h t route moves =
    elim (ClientOrder.route_certificate type is_end h route) [
      | inl e ↦ epoch_at (handler_is psk s t e.1 moves)
      | inr e ↦ epoch_at (handler_is psk s t e.1 moves)
    ]

-- Either state behind EncryptedExtensions.
extensions_epoch :
    (psk : Bool)
    → get_read_epoch
        (if psk then client_expect_finished else client_expect_certificate_request_or_certificate)
      ≡ 2
unfolding get_read_epoch
extensions_epoch true = refl
extensions_epoch false = refl

client_grows : (psk : Bool) → Forward psk client_route
unfolding get_read_epoch
client_grows psk client_expect_server_hello type is_end h t route moves = omega arith
client_grows psk client_expect_second_server_hello type is_end h t route moves = omega arith
client_grows psk client_expect_encrypted_extensions type is_end h t route moves =
    let moves' =
      handler_is psk client_expect_encrypted_extensions t
        (ClientOrder.route_extensions type is_end h route).1 moves in
    omega (arith, epoch_at moves', extensions_epoch psk)
client_grows psk client_expect_certificate_request_or_certificate type is_end h t route moves =
    elim (ClientOrder.route_request type is_end h route) [
      | inl e ↦ omega (
        arith,
        epoch_at (handler_is psk client_expect_certificate_request_or_certificate t e.1 moves),
      )
      | inr e ↦ omega (
        arith,
        certificate_grows psk client_expect_certificate_request_or_certificate type is_end h t e
            moves,
      )
    ]
client_grows psk client_expect_certificate type is_end h t route moves = omega (
  arith,
  certificate_grows psk client_expect_certificate type is_end h t (unfold client_route in route)
      moves,
)
client_grows psk client_expect_certificate_verify type is_end h t route moves = omega (
  arith,
  epoch_at (
      handler_is psk client_expect_certificate_verify t
        (ClientOrder.route_verify type is_end h route).1 moves),
)
client_grows psk client_expect_finished type is_end h t route moves = omega (
  arith,
  epoch_at (
      handler_is psk client_expect_finished t (ClientOrder.route_finished type is_end h route).1
        moves),
)
client_grows psk client_post_handshake type is_end h t route moves =
    elim (ClientOrder.route_post type is_end h route) [
      | inl e ↦ omega (arith, epoch_at (handler_is psk client_post_handshake t e.1 moves))
      | inr e ↦ omega (arith, epoch_at (handler_is psk client_post_handshake t e.1 moves))
    ]
client_grows psk client_handshake_start type is_end h t route moves = omega arith
client_grows psk server_expect_client_hello type is_end h t route moves = omega arith
client_grows psk server_expect_second_client_hello type is_end h t route moves = omega arith
client_grows psk _ type is_end h t route moves = absurd (unfold client_route in cc)

server_grows : (psk : Bool) → Forward psk server_route
unfolding get_read_epoch
server_grows psk server_expect_client_hello type is_end h t route moves = omega arith
server_grows psk server_expect_second_client_hello type is_end h t route moves = omega arith
server_grows psk server_expect_end_of_early_data type is_end h t route moves = omega (
  arith,
  epoch_at (
      handler_is psk server_expect_end_of_early_data t
        (ServerOrder.route_early_data type is_end h route).1 moves),
)
server_grows psk server_expect_certificate type is_end h t route moves = omega (
  arith,
  epoch_at (
      handler_is psk server_expect_certificate t
        (ServerOrder.route_certificate type is_end h route).1 moves),
)
server_grows psk server_expect_certificate_verify type is_end h t route moves = omega (
  arith,
  epoch_at (
      handler_is psk server_expect_certificate_verify t
        (ServerOrder.route_verify type is_end h route).1 moves),
)
server_grows psk server_expect_finished type is_end h t route moves = omega (
  arith,
  epoch_at (
      handler_is psk server_expect_finished t (ServerOrder.route_finished type is_end h route).1
        moves),
)
server_grows psk server_post_handshake type is_end h t route moves = omega (
  arith,
  epoch_at
      (handler_is psk server_post_handshake t (ServerOrder.route_post type is_end h route).1 moves),
)
server_grows psk client_handshake_start type is_end h t route moves = omega arith
server_grows psk client_expect_server_hello type is_end h t route moves = omega arith
server_grows psk client_expect_second_server_hello type is_end h t route moves = omega arith
server_grows psk _ type is_end h t route moves = absurd (unfold server_route in cc)

-- Whatever messages a client takes and however its handlers move, the epoch that
-- `ptls_get_read_epoch` states never goes back.
pub get_read_epoch-client_route :
    (psk : Bool) (s t : State) (types : List ℕ)
    → Run psk client_route s types t
    → get_read_epoch s ≤ get_read_epoch t
get_read_epoch-client_route psk s t types run = along psk client_route (client_grows psk) run

-- Whatever messages a server takes and however its handlers move, the epoch that
-- `ptls_get_read_epoch` states never goes back.
pub get_read_epoch-server_route :
    (psk : Bool) (s t : State) (types : List ℕ)
    → Run psk server_route s types t
    → get_read_epoch s ≤ get_read_epoch t
get_read_epoch-server_route psk s t types run = along psk server_route (server_grows psk) run
