-- ===== src/Ticket/Agreement.antt =====
-- The secret of a ticket is the one that the client stores with it.
use picotls.Prelude.{
  ℕ, ◌^◌, ◌<◌, ◌≡◌, refl, ap, ◌∙◌, true, some, List, [], ◌∷◌, ◌++◌, length, take, Result, ok, drop,
  eq→==,
}
use mathlib.Core.Path.{sym}
use picotls.Wire.{bytes, push16, push64, push_block, block_prefix, low_bytes}
use picotls.Hkdf.{HashAlgorithm, HashLaws}
use picotls.KeySchedule.{KeySchedule, and_then, update_hash, derive_resumption_secret}
use picotls.KeySchedule.Resumption.{
  resumption_secret, Shares, update_hash-Shares, derive_resumption_secret-Shares,
}
use picotls.Handshake.{handshake_type_new_session_ticket}
use picotls.Protect.{Aead}
use picotls.Send.{message_body, push_message}
use picotls.Finished.{handshake_header_size}
use picotls.Ticket.{
  OnExtension, SessionIdentifier, push_session_identifier, encode_session_identifier,
  push_new_session_ticket, decode_session_identifier,
}
use picotls.Ticket.Identifier.{
  FitsFields, issued, session_identifier-issued, decode_session_identifier-push,
}
use picotls.Ticket.Exchange.{
  Server, restore_ctx, push_ticket, send_session_ticket, stored_ticket, save, save_new_ticket,
  client_handle_new_session_ticket,
}
use picotls.Ticket.NewTicket.{LetsEarlyData, decode_new_session_ticket-push}
use picotls.Ticket.Foreseen.{handshake_secret, through_finished, after_finished-Shares}

drop-message_body :
    (type : ℕ) (body : List ℕ) → drop handshake_header_size (message_body type body) ≡ body
unfolding message_body push_block block_prefix low_bytes
drop-message_body type body = refl

module _ {Ctx : Type 0} (algos : ℕ → HashAlgorithm Ctx) (hash : ℕ → List ℕ → List ℕ)
    (laws : (h : ℕ) → HashLaws (algos h) (hash h)) (h : ℕ) (prefix secret : List ℕ) where
  module _ (c : Ctx) (there : (algos h).create ≡ some c) (pos : 0 < (algos h).digest_size) where
    -- The secret of the tickets that carry an empty nonce.
    abbrev pub agreed : List ℕ → List ℕ
    agreed t = resumption_secret (algos h) (hash h) prefix (take (algos h).digest_size secret) t []

    restore_ctx-Shares :
        (sched sent : KeySchedule Ctx) (t u : List ℕ)
        → Shares algos hash laws h prefix secret sched t
        → Shares algos hash laws h prefix secret sent u
        → restore_ctx sched.hashes sent.hashes ≡ sched.hashes
    unfolding restore_ctx
    restore_ctx-Shares sched sent t u (r, p, s, (ctx, hs)) (r', p', s', (ctx', hs')) =
        ap (λ ss. restore_ctx ss sent.hashes) hs
        ∙ ap (restore_ctx (record { algo = h; ctx = ctx } ∷ [])) hs'
        ∙ sym hs

    module _ {Key : Type 0} (a : Aead Key) (encrypt_ticket : List ℕ → Result (List ℕ))
        (now age_add : ℕ) (tls : Server Ctx Key) (t ticket : List ℕ)
        (shares : Shares algos hash laws h prefix secret tls.sched t) where
      -- The transcript behind the client's Finished, and what the server encrypts into the ticket.
      abbrev pub whole : List ℕ
      whole =
          through_finished algos hash laws h prefix secret tls.pending_handshake_secret
            tls.omit_end_of_early_data
            (handshake_secret tls.pending_handshake_secret tls.dec_secret) t

      abbrev pub identifier : SessionIdentifier
      identifier =
          issued now age_add (agreed whole) tls.server_name tls.key_share_id tls.cipher_suite_id
            tls.negotiated_protocol

      abbrev pub ticket_message : List ℕ
      ticket_message =
          push_new_session_ticket tls.ticket_lifetime age_add ticket tls.max_early_data_size

      -- The time, the algorithms, the message and the secret.
      abbrev pub to_store : ℕ → ℕ → ℕ → List ℕ
      to_store later kx_id cs_id =
          push64 later
          ++ (push16 kx_id
              ++ (push16 cs_id
                  ++ (push_block (bytes 3) ticket_message ++ push_block (bytes 2) (agreed whole))))

      send_session_ticket-push :
          (buf : List ℕ)
          → encrypt_ticket (push_block (bytes 2) (push_session_identifier identifier)) ≡ ok ticket
          → (tls' : Server Ctx Key) × (send_session_ticket algos true a age_add encrypt_ticket now
                tls buf
              ≡ some (
                  ok (
                    (push_message a tls.enc buf handshake_type_new_session_ticket ticket_message).0,
                    tls',
                  )))
            × (tls'.sched.hashes ≡ tls.sched.hashes)
      unfolding send_session_ticket and_then push_ticket encode_session_identifier
      send_session_ticket-push buf encrypts =
          let (sched, made, after) =
            after_finished-Shares algos hash laws h prefix secret c there pos
              tls.pending_handshake_secret tls.omit_end_of_early_data tls.dec_secret tls.sched t
              shares in
          let written =
            ap (λ i. encrypt_ticket (push_block (bytes 2) (push_session_identifier i)))
              (session_identifier-issued now age_add (agreed whole) tls.server_name tls.key_share_id
                tls.cipher_suite_id tls.negotiated_protocol)
            ∙ encrypts in
          let msg : List ℕ = message_body handshake_type_new_session_ticket ticket_message in
          let derived : derive_resumption_secret algos true sched [] ≡ some (ok (agreed whole)) =
            derive_resumption_secret-Shares algos hash laws h prefix secret c there pos sched whole
              [] after in
          (
            (push_ticket algos true a age_add tls sched ticket buf).1,
            rw made (rw derived (rw written refl)),
            restore_ctx-Shares tls.sched (update_hash algos true sched msg) t (whole ++ msg) shares
                (update_hash-Shares algos hash laws h prefix secret sched whole msg after),
          )

      -- A server whose schedule stands behind its own Finished, and a client behind its Finished,
      -- share the hash, the label prefix and the secret; the client's transcript goes on from the
      -- server's with the EndOfEarlyData that is due and its Finished, which is under the handshake
      -- secret, read from its own place while early data is due. Then the message that
      -- `send_session_ticket` pushes makes the client store the time, the algorithms, that message
      -- and the secret of tickets with an empty nonce; the very same secret, and the fields of the
      -- connection, are read back out of the identifier that the server encrypted; and the server's
      -- hash is where it was. Memory and hash contexts are there, a digest is not empty,
      -- `encrypt_ticket` gives a ticket of 1 to 65535 bytes and `save_ticket` takes what it gets; the
      -- fields fit, and the client's callback lets an early_data extension pass.
      pub send_session_ticket-client_handle_new_session_ticket :
          (buf : List ℕ) (theirs : KeySchedule Ctx) (on_extension : OnExtension)
          (later kx_id cs_id : ℕ) (save_ticket : List ℕ → ℕ)
          → encrypt_ticket (push_block (bytes 2) (push_session_identifier identifier)) ≡ ok ticket
          → FitsFields identifier
          → Shares algos hash laws h prefix secret theirs whole
          → tls.ticket_lifetime < 2 ^ 32
          → 0 < length ticket
          → length ticket < 2 ^ 16
          → tls.max_early_data_size < 2 ^ 32
          → LetsEarlyData on_extension tls.max_early_data_size
          → save_ticket (to_store later kx_id cs_id) ≡ 0
          → (tls' : Server Ctx Key) × (send_session_ticket algos true a age_add encrypt_ticket now
                tls buf
              ≡ some (
                  ok (
                    (push_message a tls.enc buf handshake_type_new_session_ticket ticket_message).0,
                    tls',
                  )))
            × (tls'.sched.hashes ≡ tls.sched.hashes)
            × (decode_session_identifier (push_block (bytes 2) (push_session_identifier identifier))
                ≡ ok identifier)
            × (client_handle_new_session_ticket algos true on_extension later kx_id cs_id
                  (some save_ticket)
                  theirs
                  (message_body handshake_type_new_session_ticket ticket_message)
                ≡ some (ok (some (to_store later kx_id cs_id))))
      unfolding stored_ticket client_handle_new_session_ticket save_new_ticket save and_then
      send_session_ticket-client_handle_new_session_ticket buf theirs on_extension later kx_id cs_id
            save_ticket encrypts fits joined life some_bytes small max lets saves =
          let (tls', sends, same) = send_session_ticket-push buf encrypts in
          let stored : List ℕ = to_store later kx_id cs_id in
          (
            tls',
            sends,
            same,
            decode_session_identifier-push identifier fits,
            rw (drop-message_body handshake_type_new_session_ticket ticket_message) (
                rw
                  (decode_new_session_ticket-push on_extension tls.ticket_lifetime age_add ticket
                    tls.max_early_data_size life fits.4 some_bytes small max lets)
                  (rw
                    (derive_resumption_secret-Shares algos hash laws h prefix secret c there pos
                      theirs whole [] joined)
                    (rw (eq→== (save_ticket stored) 0 saves) refl))),
          )
