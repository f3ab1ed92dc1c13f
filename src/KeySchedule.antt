-- ===== src/KeySchedule.antt =====
-- The key schedule, lib/picotls.c: `key_schedule_new`, `key_schedule_extract`,
-- `key_schedule_select_one`, `ptls__key_schedule_update_hash`,
-- `key_schedule_transform_post_ch1hash`, `derive_secret` and its kin. A hash algorithm is known by a
-- number, its address in the source; `algos` gives the algorithm. `has_memory` says whether malloc
-- returns memory. A result of `none` is an end of the model's fuel, or a read of `hashes[0]` in a
-- schedule that has no hash. `key_schedule_free` and the log are left out.
pub mod Secrets
pub mod Fed
pub mod Transcript
pub mod Resumption
use picotls.Prelude.{
  ℕ, ◌+◌, ◌-◌, ◌%◌, Bool, true, false, not, ◌&&◌, ◌||◌, Option, none, some, List, [], ◌∷◌, ◌++◌,
  map, ◌==◌, if◌then◌else◌, length, take, drop, replicate, Result, ok, err,
}
use mathlib.Core.Option
use picotls.Hkdf.{HashAlgorithm, hkdf_extract, hkdf_expand_label}

abbrev pub handshake_type_message_hash : ℕ
handshake_type_message_hash = 254

-- "tls13 "
abbrev pub hkdf_expand_label_prefix : List ℕ
hkdf_expand_label_prefix = 116 ∷ 108 ∷ 115 ∷ 49 ∷ 51 ∷ 32 ∷ []

-- "derived", "res master", "resumption"
abbrev pub label_derived : List ℕ
label_derived = 100 ∷ 101 ∷ 114 ∷ 105 ∷ 118 ∷ 101 ∷ 100 ∷ []

abbrev pub label_res_master : List ℕ
label_res_master = 114 ∷ 101 ∷ 115 ∷ 32 ∷ 109 ∷ 97 ∷ 115 ∷ 116 ∷ 101 ∷ 114 ∷ []

abbrev pub label_resumption : List ℕ
label_resumption = 114 ∷ 101 ∷ 115 ∷ 117 ∷ 109 ∷ 112 ∷ 116 ∷ 105 ∷ 111 ∷ 110 ∷ []

-- An entry of `hashes`.
pub record Slot (Ctx : Type 0) : Type 0 where
  pub algo : ℕ
  pub ctx : Ctx

-- `struct st_ptls_key_schedule_t`; `secret` is the array of PTLS_MAX_DIGEST_SIZE bytes.
pub record KeySchedule (Ctx : Type 0) : Type 0 where
  pub generation : ℕ
  pub hkdf_label_prefix : List ℕ
  pub secret : List ℕ
  pub hashes : List (Slot Ctx)

-- A call whose code is not 0 ends the function.
unfoldable pub and_then {ℓ ℓ'} :
    {A : Type ℓ} {B : Type ℓ'} → Option (Result A) → (A → Option (Result B)) → Option (Result B)
and_then none rest = none
and_then (some (err code)) rest = some (err code)
and_then (some (ok a)) rest = rest a

unfoldable pub mem : ℕ → List ℕ → Bool
mem h [] = false
mem h (g ∷ gs) = h == g || mem h gs

-- `preferred == NULL || cs->hash != preferred->hash`
unfoldable pub is_not_preferred : Option ℕ → ℕ → Bool
is_not_preferred none h = true
is_not_preferred (some p) h = not (h == p)

-- The loop over the offered suites, each by its hash; `seen` are the ones in front.
unfoldable pub offered_hashes : Option ℕ → List ℕ → List ℕ → List ℕ
unfolding is_not_preferred mem
offered_hashes preferred seen [] = []
offered_hashes preferred seen (h ∷ offered) =
    let rest = offered_hashes preferred (seen ++ h ∷ []) offered in
    if is_not_preferred preferred h && not (mem h seen) then h ∷ rest else rest

-- The hashes for which FOREACH_HASH runs its block, in order.
unfoldable pub foreach_hash : Option ℕ → Option (List ℕ) → List ℕ
foreach_hash none none = []
foreach_hash (some p) none = p ∷ []
foreach_hash none (some offered) = offered_hashes none [] offered
foreach_hash (some p) (some offered) = p ∷ offered_hashes (some p) [] offered

unfoldable pub prefix_or_default : Option (List ℕ) → List ℕ
prefix_or_default none = hkdf_expand_label_prefix
prefix_or_default (some p) = p

module _ {Ctx : Type 0} (algos : ℕ → HashAlgorithm Ctx) (has_memory : Bool) where
  unfoldable pub new_slots : List ℕ → Option (List (Slot Ctx))
  new_slots [] = some []
  new_slots (h ∷ hs) =
      let rest : Option (List (Slot Ctx)) = new_slots hs in
      elim (algos h).create [
        | none ↦ none
        | some c ↦ Option.map (λ slots. record { algo = h; ctx = c } ∷ slots) rest
      ]

  unfoldable pub key_schedule_new :
      Option ℕ → Option (List ℕ) → Option (List ℕ) → Option (KeySchedule Ctx)
  key_schedule_new preferred offered label_prefix =
      if has_memory
      then Option.map
          (λ slots. record {
            generation = 0;
            hkdf_label_prefix = prefix_or_default label_prefix;
            secret = replicate 64 0;
            hashes = slots;
          })
          (new_slots (foreach_hash preferred offered))
      else none

  -- The secret's bytes that are in use.
  unfoldable pub secret_of : KeySchedule Ctx → Slot Ctx → List ℕ
  secret_of sched slot = take (algos slot.algo).digest_size sched.secret

  -- A digest is written over the front of the array.
  unfoldable pub write_secret : KeySchedule Ctx → List ℕ → KeySchedule Ctx
  write_secret sched digest = record sched { secret = digest ++ drop (length digest) sched.secret }

  unfoldable pub expand_secret :
      KeySchedule Ctx → Slot Ctx → List ℕ → List ℕ → List ℕ → Option (Result (List ℕ))
  expand_secret sched slot secret label hash_value =
      hkdf_expand_label (algos slot.algo) has_memory (algos slot.algo).digest_size secret label
        hash_value sched.hkdf_label_prefix

  -- A NULL `ikm` stands for zero bytes.
  unfoldable pub ikm_or_zeroes : Slot Ctx → Option (List ℕ) → List ℕ
  ikm_or_zeroes slot none = replicate (algos slot.algo).digest_size 0
  ikm_or_zeroes slot (some ikm) = ikm

  -- The salt of an extraction: the secret, and from the second one on what is derived of it.
  unfoldable pub derive_salt : KeySchedule Ctx → Slot Ctx → Option (Result (KeySchedule Ctx))
  derive_salt sched slot =
      if sched.generation == 0
      then some (ok sched)
      else and_then
          (expand_secret sched slot (secret_of sched slot) label_derived
            (take (algos slot.algo).digest_size (algos slot.algo).empty_digest))
          (λ digest. some (ok (write_secret sched digest)))

  unfoldable pub extract_with :
      Slot Ctx → List ℕ → KeySchedule Ctx → Option (Result (KeySchedule Ctx))
  extract_with slot ikm sched =
      and_then (some (hkdf_extract (algos slot.algo) has_memory (secret_of sched slot) ikm))
        (λ digest.
          some (ok (record (write_secret sched digest) { generation = sched.generation + 1 })))

  unfoldable pub extract_on :
      List (Slot Ctx) → KeySchedule Ctx → Option (List ℕ) → Option (Result (KeySchedule Ctx))
  extract_on [] sched ikm = none
  extract_on (slot ∷ slots) sched ikm =
      and_then (derive_salt sched slot) (extract_with slot (ikm_or_zeroes slot ikm))

  unfoldable pub key_schedule_extract :
      KeySchedule Ctx → Option (List ℕ) → Option (Result (KeySchedule Ctx))
  unfolding extract_on
  key_schedule_extract sched ikm = extract_on sched.hashes sched ikm

  unfoldable pub feed_slot : List ℕ → Slot Ctx → Slot Ctx
  feed_slot msg slot = record slot { ctx = (algos slot.algo).update slot.ctx msg }

  -- `ptls__key_schedule_update_hash`
  unfoldable pub update_hash : KeySchedule Ctx → List ℕ → KeySchedule Ctx
  update_hash sched msg = record sched { hashes = map (feed_slot msg) sched.hashes }

  unfoldable pub ch1hash_prefix : Slot Ctx → List ℕ
  ch1hash_prefix slot =
      handshake_type_message_hash ∷ 0 ∷ 0 ∷ ((algos slot.algo).digest_size % 256) ∷ []

  -- Only the first context is reset; a schedule has one hash by then.
  unfoldable pub transform_on : List (Slot Ctx) → KeySchedule Ctx → Option (KeySchedule Ctx)
  transform_on [] sched = none
  transform_on (slot ∷ slots) sched =
      let (ch1hash, ctx) = (algos slot.algo).final_reset slot.ctx in
      let reset = record sched { hashes = record slot { ctx = ctx } ∷ slots } in
      some (
        update_hash (update_hash reset (ch1hash_prefix slot))
          (take (algos slot.algo).digest_size ch1hash))

  unfoldable pub key_schedule_transform_post_ch1hash : KeySchedule Ctx → Option (KeySchedule Ctx)
  unfolding transform_on
  key_schedule_transform_post_ch1hash sched = transform_on sched.hashes sched

  -- The slot of a hash, the last one if there are several, with its index.
  unfoldable pub find_slot : ℕ → ℕ → List (Slot Ctx) → Option (ℕ × Slot Ctx)
  find_slot h i [] = none
  find_slot h i (slot ∷ slots) =
      let later : Option (ℕ × Slot Ctx) = find_slot h (i + 1) slots in
      elim later [
        | some found ↦ some found
        | none ↦ if slot.algo == h then some (i, slot) else none
      ]

  -- `none` also when no slot has the hash.
  unfoldable pub key_schedule_select_one :
      KeySchedule Ctx → ℕ → Bool → Option (Result (KeySchedule Ctx))
  key_schedule_select_one sched h reset = elim (find_slot h 0 sched.hashes) [
    | none ↦ none
    | some found ↦
        let one = record sched { hashes = found.1 ∷ [] } in
        let start = record one { generation = one.generation - 1; secret = replicate 64 0 } in
        if reset || not (found.0 == 0) then key_schedule_extract start none else some (ok one)
  ]

  unfoldable pub derive_with :
      List (Slot Ctx) → KeySchedule Ctx → List ℕ → (Slot Ctx → List ℕ) → Option (Result (List ℕ))
  derive_with [] sched label hash_value = none
  derive_with (slot ∷ slots) sched label hash_value =
      expand_secret sched slot (secret_of sched slot) label
        (take (algos slot.algo).digest_size (hash_value slot))

  -- `derive_secret_with_hash` of the digest of the messages so far.
  unfoldable pub derive_secret : KeySchedule Ctx → List ℕ → Option (Result (List ℕ))
  unfolding derive_with
  derive_secret sched label =
      derive_with sched.hashes sched label (λ slot. (algos slot.algo).final_snapshot slot.ctx)

  unfoldable pub derive_secret_with_empty_digest :
      KeySchedule Ctx → List ℕ → Option (Result (List ℕ))
  unfolding derive_with
  derive_secret_with_empty_digest sched label =
      derive_with sched.hashes sched label (λ slot. (algos slot.algo).empty_digest)

  unfoldable pub resume_on :
      List (Slot Ctx) → KeySchedule Ctx → List ℕ → List ℕ → Option (Result (List ℕ))
  resume_on [] sched nonce secret = none
  resume_on (slot ∷ slots) sched nonce secret =
      expand_secret sched slot (take (algos slot.algo).digest_size secret) label_resumption nonce

  unfoldable pub derive_resumption_secret : KeySchedule Ctx → List ℕ → Option (Result (List ℕ))
  unfolding resume_on
  derive_resumption_secret sched nonce =
      and_then (derive_secret sched label_res_master) (resume_on sched.hashes sched nonce)
