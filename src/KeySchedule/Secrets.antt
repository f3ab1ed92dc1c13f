-- ===== src/KeySchedule/Secrets.antt =====
-- The secrets of the schedule are those of RFC 8446, 7.1.
use picotls.Prelude.{
  ℕ, ◌*◌, ◌<◌, ◌≡◌, ap, ◌∙◌, true, some, List, [], ◌∷◌, ◌++◌, append-nil, arith, length, take,
  replicate, take_le, ok,
}
use picotls.Hkdf.{HashAlgorithm, HashLaws, hkdf_label, hkdf_expand_label}
use picotls.Hkdf.Hmac.{key_block, hmac}
use picotls.Hkdf.Expand.{hkdf_expand_lem}
use picotls.KeySchedule.{Slot, KeySchedule, label_derived, secret_of, expand_secret}

-- HKDF-Expand-Label to a digest's length, which takes T(1) alone.
abbrev pub expand_label :
    {Ctx : Type 0}
    → HashAlgorithm Ctx
    → (List ℕ → List ℕ)
    → List ℕ
    → List ℕ
    → List ℕ
    → List ℕ
    → List ℕ
expand_label algo hash prefix secret label context =
    hmac hash algo.block_size secret (hkdf_label algo.digest_size label context prefix ++ 1 ∷ [])

-- Derive-Secret of "derived" and no messages, the salt of the next extraction.
abbrev next_salt : {Ctx : Type 0} → HashAlgorithm Ctx → (List ℕ → List ℕ) → List ℕ → List ℕ → List ℕ
next_salt algo hash prefix secret = expand_label algo hash prefix secret label_derived (hash [])

-- The master secret.
abbrev pub master_secret :
    {Ctx : Type 0} → HashAlgorithm Ctx → (List ℕ → List ℕ) → List ℕ → List ℕ → List ℕ → List ℕ
master_secret algo hash prefix psk ecdhe =
    let zeroes = replicate algo.digest_size 0 in
    let early = hmac hash algo.block_size zeroes psk in
    let handshake = hmac hash algo.block_size (next_salt algo hash prefix early) ecdhe in
    hmac hash algo.block_size (next_salt algo hash prefix handshake) zeroes

module _ {Ctx : Type 0} (algos : ℕ → HashAlgorithm Ctx) (hash : List ℕ → List ℕ) (slot : Slot Ctx)
    (slots : List (Slot Ctx)) (laws : HashLaws (algos slot.algo) hash) (c : Ctx)
    (there : (algos slot.algo).create ≡ some c) (pos : 0 < (algos slot.algo).digest_size)
    (prefix : List ℕ) where
  length-hmac :
      (key text : List ℕ)
      → length (hmac hash (algos slot.algo).block_size key text) ≡ (algos slot.algo).digest_size
  length-hmac key text = laws.length-hash (
      key_block 0x5c (algos slot.algo).block_size key
      ++ hash (key_block 0x36 (algos slot.algo).block_size key ++ text))

  pub expand_secret_lem :
      (sched : KeySchedule Ctx) (secret label context : List ℕ)
      → sched.hkdf_label_prefix ≡ prefix
      → expand_secret algos true sched slot secret label context
        ≡ some (ok (expand_label (algos slot.algo) hash prefix secret label context))
  unfolding expand_secret hkdf_expand_label
  expand_secret_lem sched secret label context same =
      let d : ℕ = (algos slot.algo).digest_size in
      let info : List ℕ = hkdf_label d label context sched.hkdf_label_prefix in
      let one : 1 * d ≡ d = omega arith in
      let t : List ℕ = hmac hash (algos slot.algo).block_size secret (info ++ 1 ∷ []) in
      hkdf_expand_lem (algos slot.algo) hash laws c 1 d secret info there pos (omega arith)
        (omega arith)
      ∙ ap (λ u. some (ok u))
          (ap (take d) (append-nil t)
            ∙ take_le d t (omega (arith, length-hmac secret (info ++ 1 ∷ []))))
      ∙ ap (λ p. some (ok (expand_label (algos slot.algo) hash p secret label context))) same

  -- The schedule in generation `g`, with `secret`.
  abbrev Holds : KeySchedule Ctx → ℕ → List ℕ → Type 0
  Holds sched g secret =
      (sched.hkdf_label_prefix ≡ prefix)
      × (sched.hashes ≡ slot ∷ slots)
      × (sched.generation ≡ g)
      × (secret_of algos true sched slot ≡ secret)
