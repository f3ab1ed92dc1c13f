-- ===== src/Finished/Verify.antt =====
-- The verify data of a Finished message is the HMAC of RFC 8446, 4.4.4.
use picotls.Prelude.{
  ℕ, ◌+◌, ◌<◌, ◌≡◌, refl, ap, ◌∙◌, Bool, true, false, Option, none, some, List, [], ◌∷◌, ◌++◌, ◌==◌,
  if◌then◌else◌, arith, length, take, drop, take_le, length-drop, replicate, All, Result, ok, err,
  guard, ==→eq, eq→==,
}
use mathlib.Core.Option
use mathlib.Core.Path.{subst}
use picotls.Code.{alert_decode_error, alert_handshake_failure, error_no_memory}
use picotls.Hkdf.{HashAlgorithm, HashLaws, HmacContext, hmac_update, hmac_final_free}
use picotls.Hkdf.Hmac.{key_block, hmac, hmac_create-Keyed, hmac_update-Keyed, hmac_final_free-Keyed}
use picotls.KeySchedule.{Slot, KeySchedule, and_then, update_hash}
use picotls.KeySchedule.Secrets.{expand_label, expand_secret_lem}
use picotls.KeySchedule.Transcript.{HasTranscript, HasTranscript-IsFed}
use picotls.KeySchedule.Fed.{IsFed}
use picotls.Wire.{push_block, block_prefix, low_bytes}
use picotls.Handshake.{handshake_type_finished}
use picotls.Protect.{Aead, Protection}
use picotls.Send.{message_body, push_message}
use picotls.Finished.{
  send_finished, mem_equal, label_finished, snapshot, digest_with, calc_on, calc_verify_data,
  compare_with, verify_on, verify_finished, build_certificate_verify_signdata, signdata_on,
}
use picotls.Finished.MemEqual.{mem_equal-same_bytes}
use picotls.Prelude.Compare.{same_bytes, same_bytes_self}

-- HMAC of the transcript's hash, under the key that "finished" derives of the traffic secret.
abbrev pub finished_mac :
    {Ctx : Type 0} → HashAlgorithm Ctx → (List ℕ → List ℕ) → List ℕ → List ℕ → List ℕ → List ℕ
finished_mac algo hash prefix secret t =
    hmac hash algo.block_size
      (expand_label algo hash prefix (take algo.digest_size secret) label_finished []) (hash t)

module _ {Ctx : Type 0} (algos : ℕ → HashAlgorithm Ctx) (hash : ℕ → List ℕ → List ℕ)
    (laws : (h : ℕ) → HashLaws (algos h) (hash h)) (sched : KeySchedule Ctx) (t : List ℕ)
    (slot : Slot Ctx) (slots : List (Slot Ctx)) (r : HasTranscript algos true hash laws sched t)
    (hashes : sched.hashes ≡ slot ∷ slots) where
  pub snapshot-hash : snapshot algos true slot ≡ hash slot.algo t
  unfolding snapshot
  snapshot-hash =
      let law = laws slot.algo in
      let d : ℕ = (algos slot.algo).digest_size in
      let fed =
        subst (All (IsFed algos true hash laws t)) hashes
          (HasTranscript-IsFed algos true hash laws sched t r) in
      ap (take d) (law.final_snapshot-hash slot.ctx ∙ ap (hash slot.algo) fed.0)
      ∙ take_le d (hash slot.algo t) (omega (arith, law.length-hash t))

  digest_with-hmac :
      (key : List ℕ) (c : Ctx)
      → (algos slot.algo).create ≡ some c
      → digest_with algos true slot key
        ≡ some (ok (hmac (hash slot.algo) (algos slot.algo).block_size key (hash slot.algo t)))
  unfolding digest_with
  digest_with-hmac key c there =
      let algo = algos slot.algo in
      let law = laws slot.algo in
      let (ctx, made, keyed) = hmac_create-Keyed algo (hash slot.algo) law key c there in
      ap answer made
      ∙ ap (λ m. some (ok m))
          (hmac_final_free-Keyed algo (hash slot.algo) law key
              (hmac_update algo ctx (snapshot algos true slot)) (snapshot algos true slot)
              (hmac_update-Keyed algo (hash slot.algo) law key ctx [] (snapshot algos true slot)
                keyed)
            ∙ ap (hmac (hash slot.algo) algo.block_size key) snapshot-hash)
    where
      answer : Option (HmacContext Ctx) → Option (Result (List ℕ))
      answer made = elim made [
        | none ↦ some (err error_no_memory)
        | some hmac ↦ some (
            ok (
              hmac_final_free (algos slot.algo)
                (hmac_update (algos slot.algo) hmac (snapshot algos true slot))))
      ]

  -- The MAC that both sides compute for a traffic secret.
  abbrev mac : List ℕ → List ℕ
  mac secret = finished_mac (algos slot.algo) (hash slot.algo) sched.hkdf_label_prefix secret t

  pub length-mac : (secret : List ℕ) → length (mac secret) ≡ (algos slot.algo).digest_size
  length-mac secret = (laws slot.algo).length-hash (
      key_block 0x5c (algos slot.algo).block_size (key_of secret)
      ++ hash slot.algo
          (key_block 0x36 (algos slot.algo).block_size (key_of secret) ++ hash slot.algo t))
    where
      key_of : List ℕ → List ℕ
      key_of s =
          expand_label (algos slot.algo) (hash slot.algo) sched.hkdf_label_prefix
            (take (algos slot.algo).digest_size s) label_finished []

  pub build_certificate_verify_signdata-hash :
      (context_string : List ℕ)
      → build_certificate_verify_signdata algos true sched context_string
        ≡ some (replicate 64 32 ++ context_string ++ 0 ∷ hash slot.algo t)
  unfolding build_certificate_verify_signdata signdata_on
  build_certificate_verify_signdata-hash context_string =
      ap (λ hs. signdata_on algos true hs context_string) hashes
      ∙ ap (λ h. some (replicate 64 32 ++ context_string ++ 0 ∷ h)) snapshot-hash

  module _ (c : Ctx) (there : (algos slot.algo).create ≡ some c)
      (pos : 0 < (algos slot.algo).digest_size) where
    pub calc_verify_data-mac :
        (secret : List ℕ) → calc_verify_data algos true sched secret ≡ some (ok (mac secret))
    unfolding calc_verify_data calc_on and_then
    calc_verify_data-mac secret =
        let algo = algos slot.algo in
        let key : List ℕ =
          expand_label algo (hash slot.algo) sched.hkdf_label_prefix (take algo.digest_size secret)
            label_finished [] in
        ap (λ hs. calc_on algos true hs sched secret) hashes
        ∙ ap (λ k. and_then k (digest_with algos true slot))
            (expand_secret_lem algos (hash slot.algo) slot slots (laws slot.algo) c there pos
              sched.hkdf_label_prefix sched (take algo.digest_size secret) label_finished [] refl)
        ∙ digest_with-hmac key c there

    -- Where memory and hash contexts are there and a digest is not empty, the schedule with
    -- transcript `t` accepts a Finished message exactly when what follows its four bytes of header
    -- is the HMAC of RFC 8446, 4.4.4, of the transcript's hash under the peer's traffic secret. A
    -- message of another length is a decode error, and one with other bytes a handshake failure.
    pub verify_finished-mac :
        (secret message : List ℕ)
        → verify_finished algos true sched secret message
          ≡ some (
              if 4 + (algos slot.algo).digest_size == length message
              then guard (same_bytes (drop 4 message) (mac secret)) alert_handshake_failure
              else err alert_decode_error)
    unfolding verify_finished verify_on and_then compare_with
    verify_finished-mac secret message =
        ap (λ hs. verify_on algos true hs sched secret message) hashes
        ∙ go (4 + (algos slot.algo).digest_size == length message)
            (λ size. compared (==→eq (4 + (algos slot.algo).digest_size) (length message) size))
      where
        answer : Bool → Result (Unit {0})
        answer equal = guard equal alert_handshake_failure

        compared :
            4 + (algos slot.algo).digest_size ≡ length message
            → and_then
                (calc_verify_data algos true sched secret)
                (compare_with algos true slot message)
              ≡ some (answer (same_bytes (drop 4 message) (mac secret)))
        compared size =
            let body : List ℕ = drop 4 message in
            let sized : (algos slot.algo).digest_size ≡ length body =
              omega (arith, length-drop 4 message, size) in
            ap (λ v. and_then v (compare_with algos true slot message))
              (calc_verify_data-mac secret)
            ∙ ap (λ (n : ℕ). Option.map answer (mem_equal body (mac secret) n)) sized
            ∙ ap (Option.map answer)
                (mem_equal-same_bytes body (mac secret) (length-mac secret ∙ sized))

        go :
            (b : Bool)
            → (b ≡ true
                → and_then
                    (calc_verify_data algos true sched secret)
                    (compare_with algos true slot message)
                  ≡ some (answer (same_bytes (drop 4 message) (mac secret))))
            → (if b
                then and_then
                    (calc_verify_data algos true sched secret)
                    (compare_with algos true slot message)
                else some (err alert_decode_error))
              ≡ some (
                  if b
                  then answer (same_bytes (drop 4 message) (mac secret))
                  else err alert_decode_error)
        go true h = h refl
        go false h = refl

    verify_finished-ok :
        (secret message : List ℕ)
        → 4 + (algos slot.algo).digest_size ≡ length message
        → drop 4 message ≡ mac secret
        → verify_finished algos true sched secret message ≡ some (ok tt)
    verify_finished-ok secret message size same =
        verify_finished-mac secret message
        ∙ ap
            (λ b. some (
              if b
              then guard (same_bytes (drop 4 message) (mac secret)) alert_handshake_failure
              else err alert_decode_error))
            (eq→== (4 + (algos slot.algo).digest_size) (length message) size)
        ∙ ap (λ m. some (guard (same_bytes m (mac secret)) alert_handshake_failure)) same
        ∙ ap (λ b. some (guard b alert_handshake_failure)) (same_bytes_self (mac secret))

-- What `send_finished` makes of a schedule, the peer's `verify_finished` accepts, when both
-- schedules have the same transcript and label prefix and are on the same hash, and the peer has the
-- sender's traffic secret; memory and hash contexts are there and a digest is not empty. The message
-- goes to the record layer, and into the transcript of the sender.
pub verify_finished-send_finished :
    {Ctx Key : Type 0} (algos : ℕ → HashAlgorithm Ctx) (hash : ℕ → List ℕ → List ℕ)
    (laws : (h : ℕ) → HashLaws (algos h) (hash h)) (a : Aead Key) (ours theirs : KeySchedule Ctx)
    (t buf : List ℕ) (enc : Protection Key) (h : ℕ) (mine its : Ctx) (c : Ctx)
    → HasTranscript algos true hash laws ours t
    → HasTranscript algos true hash laws theirs t
    → ours.hashes ≡ (record { algo = h; ctx = mine }) ∷ []
    → theirs.hashes ≡ (record { algo = h; ctx = its }) ∷ []
    → ours.hkdf_label_prefix ≡ theirs.hkdf_label_prefix
    → (algos h).create ≡ some c
    → 0 < (algos h).digest_size
    → (verify_data : List ℕ) × (send_finished algos true a ours enc buf
        ≡ some (
            ok (
              (push_message a enc buf handshake_type_finished verify_data).0,
              (push_message a enc buf handshake_type_finished verify_data).1,
              update_hash algos true ours (message_body handshake_type_finished verify_data),
            )))
      × (verify_finished algos true theirs enc.secret
            (message_body handshake_type_finished verify_data)
          ≡ some (ok tt))
unfolding send_finished and_then message_body push_block block_prefix low_bytes
verify_finished-send_finished {Ctx = Ctx} algos hash laws a ours theirs t buf enc h mine its c r r'
      hs hs' same there pos =
    let slot : Slot Ctx = record { algo = h; ctx = mine } in
    let slot' : Slot Ctx = record { algo = h; ctx = its } in
    let vd : List ℕ = finished_mac (algos h) (hash h) ours.hkdf_label_prefix enc.secret t in
    let agree : vd ≡ finished_mac (algos h) (hash h) theirs.hkdf_label_prefix enc.secret t =
      ap (λ p. finished_mac (algos h) (hash h) p enc.secret t) same in
    let size : length vd ≡ (algos h).digest_size =
      length-mac algos hash laws ours t slot [] r hs enc.secret in
    (
      vd,
      ap
          (λ v. and_then v (λ verify_data. some (
            ok (
              (push_message a enc buf handshake_type_finished verify_data).0,
              (push_message a enc buf handshake_type_finished verify_data).1,
              update_hash algos true ours (message_body handshake_type_finished verify_data),
            ))))
          (calc_verify_data-mac algos hash laws ours t slot [] r hs c there pos enc.secret),
      verify_finished-ok algos hash laws theirs t slot' [] r' hs' c there pos enc.secret
          (message_body handshake_type_finished vd) (omega (arith, size)) agree,
    )
