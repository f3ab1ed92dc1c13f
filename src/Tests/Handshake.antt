-- ===== src/Tests/Handshake.antt =====
-- Handshakes at concrete messages.
use picotls.Prelude.{◌≤◌, refl, inl, inr, true, false, [], ◌∷◌}
use picotls.Handshake.{
  client_expect_server_hello, client_post_handshake, server_expect_client_hello,
  server_post_handshake, client_handle_hello, client_handle_encrypted_extensions,
  client_handle_certificate, client_handle_certificate_verify, client_handle_finished,
  client_handle_new_session_ticket, server_handle_hello, server_handle_finished, handle_key_update,
  Run, done, message, client_route, server_route, certificate_route, get_read_epoch,
}
use picotls.Handshake.ClientOrder.{ClientTranscript, Run-ClientTranscript}
use picotls.Handshake.ServerOrder.{ServerTranscript, Run-ServerTranscript}
use picotls.Handshake.Epochs.{get_read_epoch-client_route, get_read_epoch-server_route}

-- A full handshake, with a ticket behind it.
full_handshake :
    Run false client_route client_expect_server_hello
      (2 ∷ 8 ∷ 11 ∷ 15 ∷ 20 ∷ 4 ∷ [])
      client_post_handshake
unfolding client_route certificate_route
full_handshake = message 2 true client_handle_hello refl (inr refl) (
    message 8 false client_handle_encrypted_extensions refl refl (
      message 11 false client_handle_certificate refl refl (
        message 15 false client_handle_certificate_verify refl refl (
          message 20 true client_handle_finished refl refl
            (message 4 true client_handle_new_session_ticket refl refl done)))))

-- A retry, and a key update behind the handshake.
retried_handshake :
    Run true server_route server_expect_client_hello (1 ∷ 1 ∷ 20 ∷ 24 ∷ []) server_post_handshake
unfolding server_route
retried_handshake = message 1 true server_handle_hello refl (inl (refl, refl)) (
    message 1 true server_handle_hello refl (inr (inr (inr refl))) (
      message 20 true server_handle_finished refl refl
        (message 24 false handle_key_update refl refl done)))

Run-ClientTranscript_example : ClientTranscript false (2 ∷ 8 ∷ 11 ∷ 15 ∷ 20 ∷ 4 ∷ [])
Run-ClientTranscript_example =
    Run-ClientTranscript false (2 ∷ 8 ∷ 11 ∷ 15 ∷ 20 ∷ 4 ∷ []) full_handshake

Run-ServerTranscript_example : ServerTranscript (1 ∷ 1 ∷ 20 ∷ 24 ∷ [])
Run-ServerTranscript_example = Run-ServerTranscript true (1 ∷ 1 ∷ 20 ∷ 24 ∷ []) retried_handshake

get_read_epoch-client_route_example :
    get_read_epoch client_expect_server_hello ≤ get_read_epoch client_post_handshake
get_read_epoch-client_route_example =
    get_read_epoch-client_route false client_expect_server_hello client_post_handshake
      (2 ∷ 8 ∷ 11 ∷ 15 ∷ 20 ∷ 4 ∷ []) full_handshake

get_read_epoch-server_route_example :
    get_read_epoch server_expect_client_hello ≤ get_read_epoch server_post_handshake
get_read_epoch-server_route_example =
    get_read_epoch-server_route true server_expect_client_hello server_post_handshake
      (1 ∷ 1 ∷ 20 ∷ 24 ∷ []) retried_handshake
