-- ===== src/Tests/Ticket.antt =====
-- Session tickets over the hash that can be run by hand.
use picotls.Prelude.{
  ℕ, ◌≡◌, refl, true, false, none, some, List, [], ◌∷◌, ◌++◌, arith, replicate, Result, ok, length,
  drop, ◌^◌, ◌<◌,
}
use picotls.Wire.{bytes, push_block, block_prefix, low_bytes, push16, push32, push64}
use picotls.KeySchedule.{
  KeySchedule, hkdf_expand_label_prefix, update_hash, feed_slot, derive_resumption_secret,
}
use picotls.KeySchedule.Resumption.{
  resumption_secret, Shares, update_hash-Shares, derive_resumption_secret-Shares,
}
use picotls.Handshake.{
  handshake_type_new_session_ticket, handshake_type_end_of_early_data, handshake_type_finished,
}
use picotls.Protect.{Protection}
use picotls.Extensions.{buffer_push_extension, call_on_extension}
use picotls.Send.{message_body, push_message}
use picotls.Finished.Verify.{finished_mac}
use picotls.Ticket.{
  Ticket, SessionIdentifier, find_id, push_session_identifier, encode_session_identifier,
  decode_session_identifier, push_new_session_ticket, ticket_extensions,
  decode_stored_session_ticket,
}
use picotls.Ticket.Identifier.{
  FitsFields, issued, decode_session_identifier-encode_session_identifier,
}
use picotls.Ticket.NewTicket.{decode_new_session_ticket-push}
use picotls.Ticket.Exchange.{Server, send_session_ticket, client_handle_new_session_ticket}
use picotls.Ticket.Stored.{decode_stored_session_ticket-client_handle_new_session_ticket}
use picotls.Ticket.Agreement.{send_session_ticket-client_handle_new_session_ticket}
use picotls.Tests.Hkdf.{toy_hash, toy, toy-laws}
use picotls.Tests.KeySchedule.{algos, fed, transcript}
use picotls.Tests.Protect.{tagging}

abbrev messages : List ℕ
messages = 1 ∷ 4 ∷ 2 ∷ []

abbrev shared : List ℕ
shared = replicate 64 0

shares : Shares algos (λ h. toy_hash) (λ h. toy-laws) 5 hkdf_expand_label_prefix shared fed messages
unfolding update_hash feed_slot
shares = (transcript, refl, refl, (messages, refl))

abbrev psk : List ℕ → List ℕ
psk t = resumption_secret toy toy_hash hkdf_expand_label_prefix (0 ∷ 0 ∷ []) t []

derived : derive_resumption_secret algos true fed [] ≡ some (ok (psk messages))
derived =
    derive_resumption_secret-Shares algos (λ h. toy_hash) (λ h. toy-laws) 5 hkdf_expand_label_prefix
      shared [] refl (omega arith) fed messages [] shares

abbrev identifier_of : List ℕ → SessionIdentifier
identifier_of t = issued 1000 77 (psk t) (some (119 ∷ [])) 29 0x1301 none

fits : (t : List ℕ) → FitsFields (identifier_of t)
unfolding push_session_identifier push64 push32 push16 push_block block_prefix low_bytes
fits t = (
  omega arith,
  omega arith,
  omega arith,
  omega arith,
  omega arith,
  omega arith,
  omega arith,
  omega arith,
)

decode_session_identifier-encode_session_identifier_example :
    (encoded : List ℕ) × (encode_session_identifier algos true 1000 77 [] fed
        (some (119 ∷ []))
        29
        0x1301
        none
      ≡ some (ok encoded))
    × (decode_session_identifier encoded ≡ ok (identifier_of messages))
decode_session_identifier-encode_session_identifier_example =
    decode_session_identifier-encode_session_identifier algos true 1000 77 [] fed (some (119 ∷ []))
      29 0x1301 none (psk messages) derived (fits messages)

abbrev body : List ℕ
body = push_new_session_ticket 7200 77 (9 ∷ 9 ∷ []) 16384

abbrev new_ticket : Ticket
new_ticket = record {
  lifetime = 7200;
  age_add = 77;
  nonce = [];
  ticket = 9 ∷ 9 ∷ [];
  max_early_data_size = 16384;
}

lets : call_on_extension none 4 42 (push32 16384) ≡ ok tt
unfolding call_on_extension
lets = refl

abbrev always : List ℕ → ℕ
always bytes_to_save = 0

abbrev same_id : ℕ → ℕ
same_id n = n

known_group : find_id same_id (23 ∷ 29 ∷ []) 29 ≡ some 29
unfolding find_id
known_group = refl

known_suite : find_id same_id (0x1302 ∷ 0x1301 ∷ []) 0x1301 ≡ some 0x1301
unfolding find_id
known_suite = refl

abbrev later : ℕ
later = 61000

body_bytes : length body < 2 ^ 24
unfolding push_new_session_ticket ticket_extensions buffer_push_extension push32 push16 push_block
    block_prefix low_bytes
body_bytes = omega arith

at_body : drop 4 (message_body 4 body) ≡ body
unfolding message_body push_block block_prefix low_bytes
at_body = refl

decode_stored_session_ticket-client_handle_new_session_ticket_example :
    (saved : List ℕ) × (client_handle_new_session_ticket algos true none 1000 29 0x1301
        (some always)
        fed
        (message_body 4 body)
      ≡ some (ok (some saved)))
    × (decode_stored_session_ticket same_id same_id
          (23 ∷ 29 ∷ [])
          (0x1302 ∷ 0x1301 ∷ [])
          none
          later
          saved
        ≡ ok (record {
          key_share = 29;
          cs = 0x1301;
          secret = psk messages;
          obfuscated_ticket_age = 60077;
          ticket = 9 ∷ 9 ∷ [];
          max_early_data_size = 16384;
        }))
decode_stored_session_ticket-client_handle_new_session_ticket_example =
    decode_stored_session_ticket-client_handle_new_session_ticket same_id same_id (23 ∷ 29 ∷ [])
      (0x1302 ∷ 0x1301 ∷ []) none 1000 later 29 0x1301 new_ticket body (psk messages)
      (decode_new_session_ticket-push none 7200 77 (9 ∷ 9 ∷ []) 16384 (omega arith) (omega arith)
        (omega arith) (omega arith) (omega arith) lets)
      known_group known_suite (omega arith) (omega arith) body_bytes (omega arith) (omega arith)
      (omega arith) (omega arith) algos true always fed (message_body 4 body) at_body derived refl

abbrev enc : Protection ℕ
enc = record { secret = 8 ∷ 9 ∷ []; epoch = 3; aead = some 0; seq = 0 }

abbrev server : Server (List ℕ) ℕ
server = record {
  sched = fed;
  enc = enc;
  dec_secret = 1 ∷ 2 ∷ [];
  pending_handshake_secret = some (6 ∷ 7 ∷ []);
  omit_end_of_early_data = false;
  server_name = some (119 ∷ []);
  key_share_id = 29;
  cipher_suite_id = 0x1301;
  negotiated_protocol = none;
  ticket_lifetime = 7200;
  max_early_data_size = 16384;
}

-- The client sends early data: its EndOfEarlyData is due, and its Finished is under the secret that
-- waits.
abbrev end_message : List ℕ
end_message = message_body handshake_type_end_of_early_data []

abbrev client_finished : List ℕ
client_finished =
    message_body handshake_type_finished
      (finished_mac toy toy_hash hkdf_expand_label_prefix (6 ∷ 7 ∷ []) (messages ++ end_message))

abbrev client_schedule : KeySchedule (List ℕ)
client_schedule = update_hash algos true (update_hash algos true fed end_message) client_finished

abbrev seal_ticket : List ℕ → Result (List ℕ)
seal_ticket session_id = ok (9 ∷ 9 ∷ [])

abbrev stored : List ℕ → List ℕ
stored secret =
    push64 later
    ++ (push16 29 ++ (push16 0x1301 ++ (push_block (bytes 3) body ++ push_block (bytes 2) secret)))

send_session_ticket-client_handle_new_session_ticket_example :
    (tls' : Server (List ℕ) ℕ) × (send_session_ticket algos true tagging 77 seal_ticket 1000 server
        []
      ≡ some (ok ((push_message tagging enc [] handshake_type_new_session_ticket body).0, tls')))
    × (tls'.sched.hashes ≡ fed.hashes)
    × (decode_session_identifier (
          push_block (bytes 2) (
            push_session_identifier (identifier_of ((messages ++ end_message) ++ client_finished))))
        ≡ ok (identifier_of ((messages ++ end_message) ++ client_finished)))
    × (client_handle_new_session_ticket algos true none later 29 0x1301
          (some always)
          client_schedule
          (message_body handshake_type_new_session_ticket body)
        ≡ some (ok (some (stored (psk ((messages ++ end_message) ++ client_finished))))))
send_session_ticket-client_handle_new_session_ticket_example =
    send_session_ticket-client_handle_new_session_ticket algos (λ h. toy_hash) (λ h. toy-laws) 5
      hkdf_expand_label_prefix shared [] refl (omega arith) tagging seal_ticket 1000 77 server
      messages (9 ∷ 9 ∷ []) shares [] client_schedule none later 29 0x1301 always refl
      (fits ((messages ++ end_message) ++ client_finished))
      (update_hash-Shares algos (λ h. toy_hash) (λ h. toy-laws) 5 hkdf_expand_label_prefix shared
        (update_hash algos true fed end_message) (messages ++ end_message) client_finished
        (update_hash-Shares algos (λ h. toy_hash) (λ h. toy-laws) 5 hkdf_expand_label_prefix shared
          fed messages end_message shares))
      (omega arith) (omega arith) (omega arith) (omega arith) lets refl
