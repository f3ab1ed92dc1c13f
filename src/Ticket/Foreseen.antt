-- ===== src/Ticket/Foreseen.antt =====
-- A server that sends a ticket before the client's last messages are there foresees them.
use picotls.Prelude.{
  ℕ, ◌<◌, ◌≡◌, refl, ap, ◌∙◌, Bool, true, false, Option, none, some, List, [], ◌++◌, ok,
}
use picotls.Hkdf.{HashAlgorithm, HashLaws}
use picotls.KeySchedule.{Slot, KeySchedule, and_then, update_hash}
use picotls.KeySchedule.Resumption.{Shares, update_hash-Shares}
use picotls.Handshake.{handshake_type_end_of_early_data, handshake_type_finished}
use picotls.Send.{message_body}
use picotls.Finished.{calc_verify_data}
use picotls.Finished.Verify.{finished_mac, calc_verify_data-mac}
use picotls.Ticket.Exchange.{client_secret, with_end_of_early_data, after_finished}

-- The secret under which the client's Finished is: the handshake's, which is the read secret unless
-- early data still has that place.
abbrev pub handshake_secret : Option (List ℕ) → List ℕ → List ℕ
handshake_secret none reading = reading
handshake_secret (some waiting) reading = waiting

-- The client's messages from the server's Finished on.
abbrev pub end_of_early_data : Option (List ℕ) → Bool → List ℕ → List ℕ
end_of_early_data none omit t = t
end_of_early_data (some pending) true t = t
end_of_early_data (some pending) false t = t ++ message_body handshake_type_end_of_early_data []

client_secret-handshake_secret :
    (pending : Option (List ℕ)) (dec_secret : List ℕ)
    → client_secret pending dec_secret ≡ handshake_secret pending dec_secret
unfolding client_secret
client_secret-handshake_secret none dec_secret = refl
client_secret-handshake_secret (some pending) dec_secret = refl

module _ {Ctx : Type 0} (algos : ℕ → HashAlgorithm Ctx) (hash : ℕ → List ℕ → List ℕ)
    (laws : (h : ℕ) → HashLaws (algos h) (hash h)) (h : ℕ) (prefix secret : List ℕ) where
  -- The transcript up to the client's Finished, which is under the secret `client`.
  abbrev pub through_finished : Option (List ℕ) → Bool → List ℕ → List ℕ → List ℕ
  through_finished pending omit client t =
      let t1 : List ℕ = end_of_early_data pending omit t in
      t1 ++ message_body handshake_type_finished (finished_mac (algos h) (hash h) prefix client t1)

  with_end_of_early_data-Shares :
      (pending : Option (List ℕ)) (omit : Bool) (sched : KeySchedule Ctx) (t : List ℕ)
      → Shares algos hash laws h prefix secret sched t
      → Shares algos hash laws h prefix secret
          (with_end_of_early_data algos true pending omit sched)
          (end_of_early_data pending omit t)
  unfolding with_end_of_early_data
  with_end_of_early_data-Shares none omit sched t s = s
  with_end_of_early_data-Shares (some pending) true sched t s = s
  with_end_of_early_data-Shares (some pending) false sched t s =
      update_hash-Shares algos hash laws h prefix secret sched t
        (message_body handshake_type_end_of_early_data []) s

  module _ (c : Ctx) (there : (algos h).create ≡ some c) (pos : 0 < (algos h).digest_size) where
    pub after_finished-Shares :
        (pending : Option (List ℕ)) (omit : Bool) (dec_secret : List ℕ) (sched : KeySchedule Ctx)
        (t : List ℕ)
        → Shares algos hash laws h prefix secret sched t
        → (sched' : KeySchedule Ctx) × (after_finished algos true pending omit dec_secret sched
            ≡ some (ok sched'))
          × Shares algos hash laws h prefix secret sched'
              (through_finished pending omit (handshake_secret pending dec_secret) t)
    unfolding after_finished and_then
    after_finished-Shares pending omit dec_secret sched t s =
        let chosen = client_secret-handshake_secret pending dec_secret in
        let before : KeySchedule Ctx = with_end_of_early_data algos true pending omit sched in
        let t1 : List ℕ = end_of_early_data pending omit t in
        let client : List ℕ = handshake_secret pending dec_secret in
        let vd : List ℕ = finished_mac (algos h) (hash h) prefix client t1 in
        let shared = with_end_of_early_data-Shares pending omit sched t s in
        let (r, p, same, (ctx, hs)) = shared in
        let slot : Slot Ctx = record { algo = h; ctx = ctx } in
        let computed : calc_verify_data algos true before client ≡ some (ok vd) =
          calc_verify_data-mac algos hash laws before t1 slot [] r hs c there pos client
          ∙ ap (λ k. some (ok (finished_mac (algos h) (hash h) k client t1))) p in
        (
          update_hash algos true before (message_body handshake_type_finished vd),
          rw (chosen, computed) refl,
          update_hash-Shares algos hash laws h prefix secret before t1
              (message_body handshake_type_finished vd) shared,
        )
