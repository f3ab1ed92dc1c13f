-- ===== src/KeySchedule/Transcript.antt =====
-- What the hashes of a schedule have been fed: the transcript of RFC 8446, 4.4.1.
use picotls.Prelude.{
  ℕ, ◌≤◌, ◌<◌, ◌≡◌, refl, sym, ap, ◌∙◌, Bool, true, Option, some, List, [], ◌∷◌, ◌++◌, arith, take,
  All, take_le, ok,
}
use mathlib.Core.Path.{subst}
use picotls.Hkdf.{HashAlgorithm, HashLaws}
use picotls.KeySchedule.{
  Slot, KeySchedule, key_schedule_new, secret_of, key_schedule_extract, update_hash,
  key_schedule_transform_post_ch1hash, key_schedule_select_one, derive_with, derive_secret,
}
use picotls.KeySchedule.Secrets.{expand_label, expand_secret_lem}
use picotls.KeySchedule.Fed.{
  WhenSome, WhenOk, IsFed, Keeps, new_IsFed, feed_slot-IsFed, extract-Keeps, select_IsFed,
  retry_IsFed,
}

module _ {Ctx : Type 0} (algos : ℕ → HashAlgorithm Ctx) (has_memory : Bool)
    (hash : ℕ → List ℕ → List ℕ) (laws : (h : ℕ) → HashLaws (algos h) (hash h)) where
  -- The schedules that the operations make, each with the transcript: the
  -- messages fed to it, where a first ClientHello is replaced by a message that holds its digest.
  pub data HasTranscript : KeySchedule Ctx → List ℕ → Type 0 where
    new :
        {sched : KeySchedule Ctx} (preferred : Option ℕ) (offered label_prefix : Option (List ℕ))
        → key_schedule_new algos has_memory preferred offered label_prefix ≡ some sched
        → HasTranscript sched []
    update :
        {sched : KeySchedule Ctx} {t : List ℕ} (msg : List ℕ)
        → HasTranscript sched t
        → HasTranscript (update_hash algos has_memory sched msg) (t ++ msg)
    extract :
        {sched sched' : KeySchedule Ctx} {t : List ℕ} (ikm : Option (List ℕ))
        → HasTranscript sched t
        → key_schedule_extract algos has_memory sched ikm ≡ some (ok sched')
        → HasTranscript sched' t
    select :
        {sched sched' : KeySchedule Ctx} {t : List ℕ} (h : ℕ) (reset : Bool)
        → HasTranscript sched t
        → key_schedule_select_one algos has_memory sched h reset ≡ some (ok sched')
        → HasTranscript sched' t
    retry :
        {sched sched' : KeySchedule Ctx} {t : List ℕ} (slot : Slot Ctx)
        → HasTranscript sched t
        → sched.hashes ≡ slot ∷ []
        → (algos slot.algo).digest_size ≤ 64
        → key_schedule_transform_post_ch1hash algos has_memory sched ≡ some sched'
        → HasTranscript sched' (254 ∷ 0 ∷ 0 ∷ (algos slot.algo).digest_size ∷ hash slot.algo t)

  -- Every hash of a schedule has been fed the transcript.
  pub HasTranscript-IsFed :
      (sched : KeySchedule Ctx) (t : List ℕ)
      → HasTranscript sched t
      → All (IsFed algos has_memory hash laws t) sched.hashes
  unfolding update_hash
  HasTranscript-IsFed sched t (new preferred offered label_prefix e) =
      subst (WhenSome (λ (s : KeySchedule Ctx). All (IsFed algos has_memory hash laws []) s.hashes))
        e (new_IsFed algos has_memory hash laws preferred offered label_prefix)
  HasTranscript-IsFed sched t (update {sched = before} {t = u} msg r) =
      feed_slot-IsFed algos has_memory hash laws u msg before.hashes
        (HasTranscript-IsFed before u r)
  HasTranscript-IsFed sched t (extract {sched = before} ikm r e) =
      let same : sched.hashes ≡ before.hashes =
        subst (Keeps algos has_memory hash laws before.hashes) e
          (extract-Keeps algos has_memory hash laws before ikm) in
      subst (All (IsFed algos has_memory hash laws t)) (sym same) (HasTranscript-IsFed before t r)
  HasTranscript-IsFed sched t (select {sched = before} h reset r e) =
      subst
        (WhenSome
          (WhenOk (λ (s : KeySchedule Ctx). All (IsFed algos has_memory hash laws t) s.hashes)))
        e
        (select_IsFed algos has_memory hash laws t before h reset (HasTranscript-IsFed before t r))
  HasTranscript-IsFed sched t (retry {sched = before} {t = u} slot r one small e) =
      subst
        (WhenSome (λ (s : KeySchedule Ctx).
          All
            (IsFed algos has_memory hash laws
              (254 ∷ 0 ∷ 0 ∷ (algos slot.algo).digest_size ∷ hash slot.algo u))
            s.hashes))
        e
        (retry_IsFed algos has_memory hash laws u before slot small one (
          first_of (
            subst (All (IsFed algos has_memory hash laws u)) one (HasTranscript-IsFed before u r))))
    where
      first_of :
          All (IsFed algos has_memory hash laws u) (slot ∷ [])
          → IsFed algos has_memory hash laws u slot
      first_of h = h.0

pub derive_secret-HasTranscript :
    {Ctx : Type 0} (algos : ℕ → HashAlgorithm Ctx) (hash : ℕ → List ℕ → List ℕ)
    (laws : (h : ℕ) → HashLaws (algos h) (hash h)) (sched : KeySchedule Ctx) (t label : List ℕ)
    (slot : Slot Ctx) (slots : List (Slot Ctx)) (c : Ctx)
    → HasTranscript algos true hash laws sched t
    → sched.hashes ≡ slot ∷ slots
    → (algos slot.algo).create ≡ some c
    → 0 < (algos slot.algo).digest_size
    → derive_secret algos true sched label
      ≡ some (
          ok (
            expand_label
              (algos slot.algo)
              (hash slot.algo)
              sched.hkdf_label_prefix
              (secret_of algos true sched slot)
              label
              (hash slot.algo t)))
unfolding derive_secret derive_with
derive_secret-HasTranscript algos hash laws sched t label slot slots c r hashes there pos =
    let law = laws slot.algo in
    let d : ℕ = (algos slot.algo).digest_size in
    let fed =
      subst (All (IsFed algos true hash laws t)) hashes
        (HasTranscript-IsFed algos true hash laws sched t r) in
    let digest : take d ((algos slot.algo).final_snapshot slot.ctx) ≡ hash slot.algo t =
      ap (take d) (law.final_snapshot-hash slot.ctx ∙ ap (hash slot.algo) fed.0)
      ∙ take_le d (hash slot.algo t) (omega (arith, law.length-hash t)) in
    ap (λ hs. derive_with algos true hs sched label (λ s. (algos s.algo).final_snapshot s.ctx))
      hashes
    ∙ expand_secret_lem algos (hash slot.algo) slot slots law c there pos sched.hkdf_label_prefix
        sched (secret_of algos true sched slot) label
        (take d ((algos slot.algo).final_snapshot slot.ctx)) refl
    ∙ ap
        (λ e. some (
          ok (
            expand_label (algos slot.algo) (hash slot.algo) sched.hkdf_label_prefix
              (secret_of algos true sched slot) label e)))
        digest
