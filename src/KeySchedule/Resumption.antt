-- ===== src/KeySchedule/Resumption.antt =====
-- The resumption secret of a schedule, and the schedules that two ends of a connection share.
use picotls.Prelude.{
  ℕ, ◌<◌, ◌≡◌, ap, ◌∙◌, true, some, List, [], ◌∷◌, ◌++◌, map, arith, length, take, take_le, ok,
}
use picotls.Hkdf.{HashAlgorithm, HashLaws, hkdf_label}
use picotls.Hkdf.Hmac.{key_block}
use picotls.KeySchedule.{
  Slot, KeySchedule, and_then, label_res_master, label_resumption, secret_of, update_hash,
  feed_slot, resume_on, derive_resumption_secret,
}
use picotls.KeySchedule.Secrets.{expand_label, expand_secret_lem}
use picotls.KeySchedule.Transcript.{HasTranscript, update, derive_secret-HasTranscript}

-- RFC 8446, 4.6.1: HKDF-Expand-Label(resumption_master_secret, "resumption", nonce).
abbrev pub resumption_secret :
    {Ctx : Type 0}
    → HashAlgorithm Ctx
    → (List ℕ → List ℕ)
    → List ℕ
    → List ℕ
    → List ℕ
    → List ℕ
    → List ℕ
resumption_secret algo hash prefix master t nonce =
    expand_label algo hash prefix (expand_label algo hash prefix master label_res_master (hash t))
      label_resumption nonce

module _ {Ctx : Type 0} (algos : ℕ → HashAlgorithm Ctx) (hash : ℕ → List ℕ → List ℕ)
    (laws : (h : ℕ) → HashLaws (algos h) (hash h)) (h : ℕ) (prefix secret : List ℕ) where
  -- A schedule on the one hash `h`, with the transcript `t` and the given secret and prefix.
  abbrev pub Shares : KeySchedule Ctx → List ℕ → Type 0
  Shares sched t =
      HasTranscript algos true hash laws sched t
      × (sched.hkdf_label_prefix ≡ prefix)
      × (sched.secret ≡ secret)
      × ((ctx : Ctx) × (sched.hashes ≡ (record { algo = h; ctx = ctx }) ∷ []))

  pub update_hash-Shares :
      (sched : KeySchedule Ctx) (t msg : List ℕ)
      → Shares sched t
      → Shares (update_hash algos true sched msg) (t ++ msg)
  unfolding update_hash feed_slot
  update_hash-Shares sched t msg (r, p, s, (ctx, hs)) =
      (update msg r, p, s, ((algos h).update ctx msg, ap (map (feed_slot algos true msg)) hs))

  pub length-expand_label :
      (key label context : List ℕ)
      → length (expand_label (algos h) (hash h) prefix key label context) ≡ (algos h).digest_size
  length-expand_label key label context = (laws h).length-hash (
      key_block 0x5c (algos h).block_size key
      ++ hash h (
          key_block 0x36 (algos h).block_size key
          ++ (hkdf_label (algos h).digest_size label context prefix ++ 1 ∷ [])))

  module _ (c : Ctx) (there : (algos h).create ≡ some c) (pos : 0 < (algos h).digest_size) where
    pub derive_resumption_secret-Shares :
        (sched : KeySchedule Ctx) (t nonce : List ℕ)
        → Shares sched t
        → derive_resumption_secret algos true sched nonce
          ≡ some (
              ok (
                resumption_secret
                  (algos h)
                  (hash h)
                  prefix
                  (take (algos h).digest_size secret)
                  t
                  nonce))
    unfolding derive_resumption_secret resume_on and_then secret_of
    derive_resumption_secret-Shares sched t nonce (r, p, s, (ctx, hs)) =
        let d : ℕ = (algos h).digest_size in
        let slot : Slot Ctx = record { algo = h; ctx = ctx } in
        let master : List ℕ =
          expand_label (algos h) (hash h) prefix (take d secret) label_res_master (hash h t) in
        ap (λ v. and_then v (resume_on algos true sched.hashes sched nonce))
          (derive_secret-HasTranscript algos hash laws sched t label_res_master slot [] c r hs there
            pos)
        ∙ ap
            (λ k.
              resume_on algos true sched.hashes sched nonce (
                expand_label (algos h) (hash h) k (take d sched.secret) label_res_master
                  (hash h t)))
            p
        ∙ ap
            (λ k.
              resume_on algos true sched.hashes sched nonce
                (expand_label (algos h) (hash h) prefix (take d k) label_res_master (hash h t)))
            s
        ∙ ap (λ ss. resume_on algos true ss sched nonce master) hs
        ∙ expand_secret_lem algos (hash h) slot [] (laws h) c there pos prefix sched (take d master)
            label_resumption nonce p
        ∙ ap (λ k. some (ok (expand_label (algos h) (hash h) prefix k label_resumption nonce)))
            (take_le d master
              (omega (arith, length-expand_label (take d secret) label_res_master (hash h t))))
