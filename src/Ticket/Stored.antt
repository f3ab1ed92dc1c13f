-- ===== src/Ticket/Stored.antt =====
-- What a client saves of a NewSessionTicket message is read back by a later connection.
use picotls.Prelude.{
  ℕ, ◌+◌, ◌-◌, ◌%◌, ◌^◌, ◌≤◌, ◌<◌, ◌≡◌, refl, Bool, some, List, [], ◌++◌, le→leb, lt→ltb, eq→==,
  length, drop, ok, arith,
}
use picotls.Wire.{bytes, push16, push_block, take_all}
use picotls.Wire.Integers.{decode-push}
use picotls.Wire.Blocks.{decode_open_block-body, decode_block-body}
use picotls.Hkdf.{HashAlgorithm}
use picotls.KeySchedule.{KeySchedule, and_then, derive_resumption_secret}
use picotls.Ticket.{
  OnExtension, Ticket, StoredTicket, decode_new_session_ticket, ticket_block, find_id, found,
  obfuscated_age, decode_stored_session_ticket,
}
use picotls.Ticket.Exchange.{stored_ticket, save, save_new_ticket, client_handle_new_session_ticket}

obfuscated_age-recent :
    (now obtained_at age_add : ℕ)
    → obtained_at ≤ now
    → now - obtained_at < 604800000
    → obfuscated_age now obtained_at age_add
      ≡ ok (((now - obtained_at) % 2 ^ 32 + age_add) % 2 ^ 32)
unfolding obfuscated_age
obfuscated_age-recent now obtained_at age_add past recent =
    rw (le→leb obtained_at now past, lt→ltb (now - obtained_at) 604800000 recent) refl

ticket_block-reads :
    (on_extension : OnExtension) (body : List ℕ) (t : Ticket)
    → decode_new_session_ticket on_extension body ≡ ok t
    → ticket_block on_extension body ≡ ok (t, [])
unfolding ticket_block
ticket_block-reads on_extension body t reads = rw reads refl

module _ {Kx Cs : Type 0} (kx_id : Kx → ℕ) (cs_id : Cs → ℕ) (key_exchanges : List Kx)
    (cipher_suites : List Cs) (on_extension : OnExtension) where
  -- The ticket that a connection at `later` gets of one that was stored at `now`.
  abbrev pub restored : ℕ → ℕ → Kx → Cs → Ticket → List ℕ → StoredTicket Kx Cs
  restored later now kx cs t secret = record {
    key_share = kx;
    cs = cs;
    secret = secret;
    obfuscated_ticket_age = ((later - now) % 2 ^ 32 + t.age_add) % 2 ^ 32;
    ticket = t.ticket;
    max_early_data_size = t.max_early_data_size;
  }

  module _ (now later : ℕ) (kx : Kx) (cs : Cs) (t : Ticket) (body secret : List ℕ)
      (reads : decode_new_session_ticket on_extension body ≡ ok t)
      (has_kx : find_id kx_id key_exchanges (kx_id kx) ≡ some kx)
      (has_cs : find_id cs_id cipher_suites (cs_id cs) ≡ some cs) (small_kx : kx_id kx < 2 ^ 16)
      (small_cs : cs_id cs < 2 ^ 16) (small : length body < 2 ^ 24)
      (small_secret : length secret < 2 ^ 16) (in_range : now < 2 ^ 64) (past : now ≤ later)
      (recent : later - now < 604800000) where
    decode_stored_session_ticket-stored_ticket :
        decode_stored_session_ticket kx_id cs_id key_exchanges cipher_suites on_extension later
          (stored_ticket now (kx_id kx) (cs_id cs) body secret)
        ≡ ok (restored later now kx cs t secret)
    unfolding decode_stored_session_ticket stored_ticket found
    decode_stored_session_ticket-stored_ticket =
        let tail3 : List ℕ = push_block (bytes 2) secret in
        let tail2 : List ℕ = push_block (bytes 3) body ++ tail3 in
        let tail1 : List ℕ = push16 (cs_id cs) ++ tail2 in
        rw ((decode-push now (push16 (kx_id kx) ++ tail1)).3 in_range) (
          rw ((decode-push (kx_id kx) tail1).0 small_kx) (
            rw ((decode-push (cs_id cs) tail2).0 small_cs) (
              rw
                (decode_open_block-body (bytes 3) (ticket_block on_extension) body tail3 t
                  (small, omega arith) (ticket_block-reads on_extension body t reads))
                (rw
                  (decode_block-body (bytes 2) take_all secret secret (small_secret, omega arith)
                    refl).1
                  (rw (has_kx, has_cs)
                    (rw (obfuscated_age-recent later now t.age_add past recent) refl))))))

    -- A client that can read a NewSessionTicket message, derive the resumption secret for its
    -- nonce, and save what it stores, saves bytes that a connection gets everything back from for
    -- less than seven days: the ticket, the secret, the key exchange and the cipher suite, whose ids
    -- lead to them, the size of early data, and the age with the server's offset added. The ids
    -- have 16 bits, the message 24 and the secret 16 for its length, the time 64.
    pub decode_stored_session_ticket-client_handle_new_session_ticket :
        {Ctx : Type 0} (algos : ℕ → HashAlgorithm Ctx) (has_memory : Bool)
        (save_ticket : List ℕ → ℕ) (sched : KeySchedule Ctx) (message : List ℕ)
        → drop 4 message ≡ body
        → derive_resumption_secret algos has_memory sched t.nonce ≡ some (ok secret)
        → save_ticket (stored_ticket now (kx_id kx) (cs_id cs) body secret) ≡ 0
        → (saved : List ℕ) × (client_handle_new_session_ticket algos has_memory on_extension now
              (kx_id kx)
              (cs_id cs)
              (some save_ticket)
              sched
              message
            ≡ some (ok (some saved)))
          × (decode_stored_session_ticket kx_id cs_id key_exchanges cipher_suites on_extension later
                saved
              ≡ ok (restored later now kx cs t secret))
    unfolding client_handle_new_session_ticket save_new_ticket and_then save
    decode_stored_session_ticket-client_handle_new_session_ticket algos has_memory save_ticket sched
          message at_body derives saves =
        let stored : List ℕ = stored_ticket now (kx_id kx) (cs_id cs) body secret in
        (
          stored,
          rw (at_body, reads) (rw derives (rw (eq→== (save_ticket stored) 0 saves) refl)),
          decode_stored_session_ticket-stored_ticket,
        )
