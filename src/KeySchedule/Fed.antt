-- ===== src/KeySchedule/Fed.antt =====
-- What each operation of the schedule feeds to its hashes.
use picotls.Prelude.{
  ℕ, ◌+◌, ◌-◌, ◌%◌, ◌≤◌, ◌≡◌, refl, sym, ap, ◌∙◌, Bool, true, false, not, ◌||◌, Option, none, some,
  List, [], ◌∷◌, ◌++◌, map, arith, ◌==◌, if◌then◌else◌, take, replicate, All, take_le, Result, ok,
  err,
}
use mathlib.Core.Option
use mathlib.Core.Path.{subst, ap₂}
use picotls.Hkdf.{hkdf_extract, HashAlgorithm, HashLaws}
use picotls.KeySchedule.{
  Slot, KeySchedule, and_then, foreach_hash, prefix_or_default, new_slots, key_schedule_new,
  secret_of, write_secret, expand_secret, ikm_or_zeroes, derive_salt, extract_with, extract_on,
  label_derived, key_schedule_extract, feed_slot, update_hash, ch1hash_prefix, transform_on,
  key_schedule_transform_post_ch1hash, find_slot, key_schedule_select_one,
}

abbrev pub WhenSome {ℓ κ} : {A : Type ℓ} → (A → Type κ) → Option A → Type κ
WhenSome P none = Unit
WhenSome P (some x) = P x

abbrev pub WhenOk {ℓ κ} : {A : Type ℓ} → (A → Type κ) → Result A → Type κ
WhenOk P (err code) = Unit
WhenOk P (ok x) = P x

and_then-WhenOk {ℓ ℓ' κ κ'} :
    {A : Type ℓ} {B : Type ℓ'} (P : A → Type κ) (Q : B → Type κ') (rest : A → Option (Result B))
    (first : Option (Result A))
    → WhenSome (WhenOk P) first
    → ((a : A) → P a → WhenSome (WhenOk Q) (rest a))
    → WhenSome (WhenOk Q) (and_then first rest)
unfolding and_then
and_then-WhenOk P Q rest none h k = tt
and_then-WhenOk P Q rest (some (err code)) h k = tt
and_then-WhenOk P Q rest (some (ok a)) h k = k a h

module _ {Ctx : Type 0} (algos : ℕ → HashAlgorithm Ctx) (has_memory : Bool)
    (hash : ℕ → List ℕ → List ℕ) (laws : (h : ℕ) → HashLaws (algos h) (hash h)) where
  -- A hash whose context was fed `t` since its start.
  abbrev pub IsFed : List ℕ → Slot Ctx → Type 0
  IsFed t slot = (laws slot.algo).fed slot.ctx ≡ t

  new_slots-IsFed : (hs : List ℕ) → WhenSome (All (IsFed [])) (new_slots algos has_memory hs)
  unfolding new_slots
  new_slots-IsFed [] = tt
  new_slots-IsFed (x ∷ hs) =
      go (algos x).create (λ c e. (laws x).create-fed c e) (new_slots-IsFed hs)
    where
      put :
          (c : Ctx)
          → IsFed [] (record { algo = x; ctx = c })
          → (rest : Option (List (Slot Ctx))) → WhenSome (All (IsFed [])) rest
          → WhenSome
              (All (IsFed []))
              (Option.map (λ slots. record { algo = x; ctx = c } ∷ slots) rest)
      put c fresh none h = tt
      put c fresh (some slots) h = (fresh, h)

      go :
          (o : Option Ctx)
          → ((c : Ctx) → o ≡ some c → (laws x).fed c ≡ [])
          → WhenSome (All (IsFed [])) (new_slots algos has_memory hs)
          → WhenSome (All (IsFed [])) (elim o [
            | none ↦ none
            | some c ↦
                Option.map
                  (λ slots. record { algo = x; ctx = c } ∷ slots)
                  (new_slots algos has_memory hs)
          ])
      go none fresh h = tt
      go (some c) fresh h = put c (fresh c refl) (new_slots algos has_memory hs) h

  pub feed_slot-IsFed :
      (t msg : List ℕ) (slots : List (Slot Ctx))
      → All (IsFed t) slots
      → All (IsFed (t ++ msg)) (map (feed_slot algos has_memory msg) slots)
  unfolding feed_slot
  feed_slot-IsFed t msg [] h = tt
  feed_slot-IsFed t msg (slot ∷ slots) h = (
    (laws slot.algo).update-fed slot.ctx msg ∙ ap (λ s. s ++ msg) h.0,
    feed_slot-IsFed t msg slots h.1,
  )

  find_slot-IsFed :
      (t : List ℕ) (h i : ℕ) (slots : List (Slot Ctx))
      → All (IsFed t) slots
      → WhenSome (λ found. IsFed t found.1) (find_slot algos has_memory h i slots)
  unfolding find_slot
  find_slot-IsFed t h i [] fed = tt
  find_slot-IsFed t h i (slot ∷ slots) fed =
      pick (find_slot algos has_memory h (i + 1) slots) (find_slot-IsFed t h (i + 1) slots fed.1)
        (slot.algo == h)
    where
      Found : Option (ℕ × Slot Ctx) → Type 0
      Found o = WhenSome (λ found. IsFed t found.1) o

      pick :
          (o : Option (ℕ × Slot Ctx))
          → Found o
          → (b : Bool)
          → Found (elim o [ some found ↦ some found | none ↦ if b then some (i, slot) else none ])
      pick (some found) h b = h
      pick none h true = fed.0
      pick none h false = tt

  -- What a call leaves has the hashes `hs`.
  abbrev pub Keeps : List (Slot Ctx) → Option (Result (KeySchedule Ctx)) → Type 0
  Keeps hs o = WhenSome (WhenOk (λ (s : KeySchedule Ctx). s.hashes ≡ hs)) o

  any_ok : (o : Option (Result (List ℕ))) → WhenSome (WhenOk (λ (d : List ℕ). Unit {0})) o
  any_ok none = tt
  any_ok (some (err code)) = tt
  any_ok (some (ok d)) = tt

  derive_salt-Keeps :
      (slot : Slot Ctx) (sched : KeySchedule Ctx)
      → Keeps sched.hashes (derive_salt algos has_memory sched slot)
  unfolding derive_salt write_secret
  derive_salt-Keeps slot sched = go (sched.generation == 0)
    where
      derived : Option (Result (List ℕ))
      derived =
          expand_secret algos has_memory sched slot (secret_of algos has_memory sched slot)
            label_derived (take (algos slot.algo).digest_size (algos slot.algo).empty_digest)

      written : List ℕ → Option (Result (KeySchedule Ctx))
      written digest = some (ok (write_secret algos has_memory sched digest))

      go : (b : Bool) → Keeps sched.hashes (if b then some (ok sched) else and_then derived written)
      go true = refl
      go false =
          and_then-WhenOk (λ (d : List ℕ). Unit {0})
            (λ (s : KeySchedule Ctx). s.hashes ≡ sched.hashes) written derived (any_ok derived)
            (λ d u. refl)

  extract_with-Keeps :
      (slot : Slot Ctx) (ikm : List ℕ) (hs : List (Slot Ctx)) (sched : KeySchedule Ctx)
      → sched.hashes ≡ hs
      → Keeps hs (extract_with algos has_memory slot ikm sched)
  unfolding extract_with write_secret
  extract_with-Keeps slot ikm hs sched e =
      and_then-WhenOk (λ (d : List ℕ). Unit {0}) (λ (s : KeySchedule Ctx). s.hashes ≡ hs)
        (λ digest. some (
          ok (record (write_secret algos has_memory sched digest) {
            generation = sched.generation + 1;
          })))
        (some
          (hkdf_extract (algos slot.algo) has_memory (secret_of algos has_memory sched slot) ikm))
        (any_ok (
          some (
            hkdf_extract (algos slot.algo) has_memory (secret_of algos has_memory sched slot) ikm)))
        (λ d u. e)

  -- An extraction does not touch the hashes.
  pub extract-Keeps :
      (sched : KeySchedule Ctx) (ikm : Option (List ℕ))
      → Keeps sched.hashes (key_schedule_extract algos has_memory sched ikm)
  unfolding key_schedule_extract
  extract-Keeps sched ikm = go sched.hashes
    where
      go : (hs : List (Slot Ctx)) → Keeps sched.hashes (extract_on algos has_memory hs sched ikm)
      go [] = tt
      go (slot ∷ slots) =
          and_then-WhenOk (λ (s : KeySchedule Ctx). s.hashes ≡ sched.hashes)
            (λ (s : KeySchedule Ctx). s.hashes ≡ sched.hashes)
            (extract_with algos has_memory slot (ikm_or_zeroes algos has_memory slot ikm))
            (derive_salt algos has_memory sched slot) (derive_salt-Keeps slot sched)
            (λ s e.
              extract_with-Keeps slot (ikm_or_zeroes algos has_memory slot ikm) sched.hashes s e)

  pub select_IsFed :
      (t : List ℕ) (sched : KeySchedule Ctx) (h : ℕ) (reset : Bool)
      → All (IsFed t) sched.hashes
      → WhenSome
          (WhenOk (λ (s : KeySchedule Ctx). All (IsFed t) s.hashes))
          (key_schedule_select_one algos has_memory sched h reset)
  unfolding key_schedule_select_one
  select_IsFed t sched h reset fed =
      go (find_slot algos has_memory h 0 sched.hashes) (find_slot-IsFed t h 0 sched.hashes fed)
    where
      one : Slot Ctx → KeySchedule Ctx
      one slot = record sched { hashes = slot ∷ [] }

      start : Slot Ctx → KeySchedule Ctx
      start slot = record (one slot) {
        generation = (one slot).generation - 1;
        secret = replicate 64 0;
      }

      Fed : Option (Result (KeySchedule Ctx)) → Type 0
      Fed o = WhenSome (WhenOk (λ (s : KeySchedule Ctx). All (IsFed t) s.hashes)) o

      weaken :
          (slot : Slot Ctx) (o : Option (Result (KeySchedule Ctx)))
          → IsFed t slot
          → Keeps (slot ∷ []) o
          → Fed o
      weaken slot none g k = tt
      weaken slot (some (err code)) g k = tt
      weaken slot (some (ok s)) g k = subst (All (IsFed t)) (sym k) (g, tt)

      choose :
          (b : Bool) (slot : Slot Ctx)
          → IsFed t slot
          → Fed (
              if b
              then key_schedule_extract algos has_memory (start slot) none
              else some (ok (one slot)))
      choose true slot g =
          weaken slot (key_schedule_extract algos has_memory (start slot) none) g
            (extract-Keeps (start slot) none)
      choose false slot g = (g, tt)

      go :
          (o : Option (ℕ × Slot Ctx))
          → WhenSome (λ found. IsFed t found.1) o
          → Fed (elim o [
            | none ↦ none
            | some found ↦
                if reset || not (found.0 == 0)
                then key_schedule_extract algos has_memory (start found.1) none
                else some (ok (one found.1))
          ])
      go none g = tt
      go (some found) g = choose (reset || not (found.0 == 0)) found.1 g

  pub retry_IsFed :
      (t : List ℕ) (sched : KeySchedule Ctx) (slot : Slot Ctx)
      → (algos slot.algo).digest_size ≤ 64
      → sched.hashes ≡ slot ∷ []
      → IsFed t slot
      → WhenSome
          (λ (s : KeySchedule Ctx).
            All (IsFed (254 ∷ 0 ∷ 0 ∷ (algos slot.algo).digest_size ∷ hash slot.algo t)) s.hashes)
          (key_schedule_transform_post_ch1hash algos has_memory sched)
  unfolding key_schedule_transform_post_ch1hash transform_on update_hash feed_slot ch1hash_prefix
  retry_IsFed t sched slot small one g =
      let law = laws slot.algo in
      let d : ℕ = (algos slot.algo).digest_size in
      let (md, ctx) = (algos slot.algo).final_reset slot.ctx in
      let prefix : List ℕ = 254 ∷ 0 ∷ 0 ∷ (d % 256) ∷ [] in
      let byte : d % 256 ≡ d = omega arith in
      let digest : take d md ≡ hash slot.algo t =
        ap (take d) (law.final_reset-hash slot.ctx ∙ ap (hash slot.algo) g)
        ∙ take_le d (hash slot.algo t) (omega (arith, law.length-hash t)) in
      let fed =
        law.update-fed ((algos slot.algo).update ctx prefix) (take d md)
        ∙ ap (λ s. s ++ take d md)
            (law.update-fed ctx prefix ∙ ap (λ s. s ++ prefix) (law.final_reset-fed slot.ctx))
        ∙ ap₂ (λ (b : ℕ) s. 254 ∷ 0 ∷ 0 ∷ b ∷ s) byte digest in
      subst
        (λ hs.
          WhenSome
            (λ (s : KeySchedule Ctx).
              All (IsFed (254 ∷ 0 ∷ 0 ∷ (algos slot.algo).digest_size ∷ hash slot.algo t)) s.hashes)
            (transform_on algos has_memory hs sched))
        (sym one) (fed, tt)

  pub new_IsFed :
      (preferred : Option ℕ) (offered label_prefix : Option (List ℕ))
      → WhenSome
          (λ (s : KeySchedule Ctx). All (IsFed []) s.hashes)
          (key_schedule_new algos has_memory preferred offered label_prefix)
  unfolding key_schedule_new
  new_IsFed preferred offered label_prefix =
      go has_memory (new_slots algos has_memory (foreach_hash preferred offered))
        (new_slots-IsFed (foreach_hash preferred offered))
    where
      go :
          (b : Bool) (o : Option (List (Slot Ctx)))
          → WhenSome (All (IsFed [])) o
          → WhenSome
              (λ (s : KeySchedule Ctx). All (IsFed []) s.hashes)
              (if b
                then Option.map
                    (λ slots. record {
                      generation = 0;
                      hkdf_label_prefix = prefix_or_default label_prefix;
                      secret = replicate 64 0;
                      hashes = slots;
                    })
                    o
                else none)
      go true none h = tt
      go true (some slots) h = h
      go false o h = tt
