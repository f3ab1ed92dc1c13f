-- ===== src/Ticket/Exchange.antt =====
-- Both ends of a NewSessionTicket message, lib/picotls.c: `send_session_ticket` of a server and
-- `client_handle_new_session_ticket`. Memory for the buffers is there. The parameters: the hash
-- algorithms, the AEAD `a` of the server's record layer, `encrypt_ticket` and `save_ticket` of the
-- context, by the code they return; what `get_time` and `random_bytes` give.
use picotls.Prelude.{
  ℕ, Bool, Option, none, some, List, [], ◌∷◌, ◌++◌, ◌==◌, if◌then◌else◌, drop, Result, ok, err,
}
use picotls.Wire.{bytes, push16, push64, push_block}
use picotls.Hkdf.{HashAlgorithm}
use picotls.KeySchedule.{Slot, KeySchedule, and_then, update_hash, derive_resumption_secret}
use picotls.Handshake.{
  handshake_type_new_session_ticket, handshake_type_end_of_early_data, handshake_type_finished,
}
use picotls.Protect.{Aead, Protection}
use picotls.Send.{message_body, push_message}
use picotls.Finished.{calc_verify_data, handshake_header_size}
use picotls.Ticket.{
  OnExtension, Ticket, decode_new_session_ticket, push_new_session_ticket,
  encode_session_identifier,
}

-- What `send_session_ticket` reads and writes of the connection and its context; `dec_secret` is
-- `traffic_protection.dec.secret`.
pub record Server (Ctx Key : Type 0) : Type 0 where
  pub sched : KeySchedule Ctx
  pub enc : Protection Key
  pub dec_secret : List ℕ
  pub pending_handshake_secret : Option (List ℕ)
  pub omit_end_of_early_data : Bool
  pub server_name : Option (List ℕ)
  pub key_share_id : ℕ
  pub cipher_suite_id : ℕ
  pub negotiated_protocol : Option (List ℕ)
  pub ticket_lifetime : ℕ
  pub max_early_data_size : ℕ

-- The client's handshake traffic secret, which may still wait behind the early data's.
unfoldable pub client_secret : Option (List ℕ) → List ℕ → List ℕ
client_secret none dec_secret = dec_secret
client_secret (some pending) dec_secret = pending

-- `hashes[0].ctx = msghash_backup`
unfoldable pub restore_ctx : {Ctx : Type 0} → List (Slot Ctx) → List (Slot Ctx) → List (Slot Ctx)
restore_ctx (backup ∷ _) (slot ∷ slots) = record slot { ctx = backup.ctx } ∷ slots
restore_ctx _ slots = slots

-- What the client saves: the server's message with the time, the algorithms and the secret.
unfoldable pub stored_ticket : ℕ → ℕ → ℕ → List ℕ → List ℕ → List ℕ
stored_ticket now key_share_id cipher_suite_id body secret =
    push64 now
    ++ (push16 key_share_id
        ++ (push16 cipher_suite_id ++ (push_block (bytes 3) body ++ push_block (bytes 2) secret)))

-- The call of `save_ticket`; its argument is the result.
unfoldable pub save : (List ℕ → ℕ) → List ℕ → Result (Option (List ℕ))
save save_ticket src = if save_ticket src == 0 then ok (some src) else err (save_ticket src)

module _ {Ctx : Type 0} (algos : ℕ → HashAlgorithm Ctx) (has_memory : Bool) where
  -- The EndOfEarlyData that the client is going to send goes into the transcript.
  unfoldable pub with_end_of_early_data : Option (List ℕ) → Bool → KeySchedule Ctx → KeySchedule Ctx
  with_end_of_early_data none omit sched = sched
  with_end_of_early_data (some pending) omit sched =
      if omit
      then sched
      else update_hash algos has_memory sched (message_body handshake_type_end_of_early_data [])

  -- The schedule once the client has sent its Finished message.
  unfoldable pub after_finished :
      Option (List ℕ) → Bool → List ℕ → KeySchedule Ctx → Option (Result (KeySchedule Ctx))
  unfolding with_end_of_early_data client_secret
  after_finished pending omit dec_secret sched =
      let before = with_end_of_early_data pending omit sched in
      and_then (calc_verify_data algos has_memory before (client_secret pending dec_secret))
        (λ verify_data. some (
          ok (
            update_hash algos has_memory before
              (message_body handshake_type_finished verify_data))))

  module _ {Key : Type 0} (a : Aead Key) (ticket_age_add : ℕ) where
    -- The send buffer and the connection behind the message; the schedule gets its first context
    -- back, so that it goes on without the client's messages and the ticket's.
    unfoldable pub push_ticket :
        Server Ctx Key → KeySchedule Ctx → List ℕ → List ℕ → List ℕ × Server Ctx Key
    unfolding restore_ctx
    push_ticket tls sched ticket buf =
        let body : List ℕ =
          push_new_session_ticket tls.ticket_lifetime ticket_age_add ticket
            tls.max_early_data_size in
        let pushed = push_message a tls.enc buf handshake_type_new_session_ticket body in
        let sent =
          update_hash algos has_memory sched
            (message_body handshake_type_new_session_ticket body) in
        (
          pushed.0,
          record tls {
            enc = pushed.1;
            sched = record sent { hashes = restore_ctx tls.sched.hashes sent.hashes };
          },
        )

    module _ (encrypt_ticket : List ℕ → Result (List ℕ)) (now : ℕ) where
      unfoldable pub send_session_ticket :
          Server Ctx Key → List ℕ → Option (Result (List ℕ × Server Ctx Key))
      unfolding after_finished push_ticket
      send_session_ticket tls buf =
          and_then
            (after_finished tls.pending_handshake_secret tls.omit_end_of_early_data tls.dec_secret
              tls.sched)
            (λ sched.
              and_then
                (encode_session_identifier algos has_memory now ticket_age_add [] sched
                  tls.server_name tls.key_share_id tls.cipher_suite_id tls.negotiated_protocol)
                (λ session_id.
                  and_then (some (encrypt_ticket session_id))
                    (λ ticket. some (ok (push_ticket tls sched ticket buf)))))

  module _ (on_extension : OnExtension) (now key_share_id cipher_suite_id : ℕ) where
    unfoldable pub save_new_ticket :
        Option (List ℕ → ℕ) → KeySchedule Ctx → List ℕ → Ticket → Option (Result (Option (List ℕ)))
    unfolding stored_ticket save
    save_new_ticket none sched body t = some (ok none)
    save_new_ticket (some save_ticket) sched body t =
        and_then (derive_resumption_secret algos has_memory sched t.nonce) (λ secret.
          some (save save_ticket (stored_ticket now key_share_id cipher_suite_id body secret)))

    -- The bytes that were saved, none when `save_ticket` is NULL.
    unfoldable pub client_handle_new_session_ticket :
        Option (List ℕ → ℕ) → KeySchedule Ctx → List ℕ → Option (Result (Option (List ℕ)))
    unfolding save_new_ticket
    client_handle_new_session_ticket save_ticket sched message =
        let body : List ℕ = drop handshake_header_size message in
        and_then (some (decode_new_session_ticket on_extension body))
          (save_new_ticket save_ticket sched body)
