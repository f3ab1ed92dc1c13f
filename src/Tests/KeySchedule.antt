-- ===== src/Tests/KeySchedule.antt =====
-- The key schedule over a hash that can be run by hand.
use picotls.Prelude.{ℕ, ◌≡◌, refl, true, none, some, List, [], ◌∷◌, replicate}
use picotls.Hkdf.{HashAlgorithm}
use picotls.KeySchedule.{
  Slot, KeySchedule, hkdf_expand_label_prefix, foreach_hash, prefix_or_default, new_slots,
  key_schedule_new, update_hash,
}
use picotls.KeySchedule.Transcript.{HasTranscript, new, update}
use picotls.Tests.Hkdf.{toy_hash, toy, toy-laws}

abbrev pub algos : ℕ → HashAlgorithm (List ℕ)
algos h = toy

abbrev slot : Slot (List ℕ)
slot = record { algo = 5; ctx = [] }

abbrev fresh : KeySchedule (List ℕ)
fresh = record {
  generation = 0;
  hkdf_label_prefix = hkdf_expand_label_prefix;
  secret = replicate 64 0;
  hashes = slot ∷ [];
}

made : key_schedule_new algos true (some 5) none none ≡ some fresh
unfolding key_schedule_new new_slots foreach_hash prefix_or_default
made = refl

abbrev pub fed : KeySchedule (List ℕ)
fed = update_hash algos true (update_hash algos true fresh (1 ∷ 4 ∷ [])) (2 ∷ [])

pub transcript : HasTranscript algos true (λ h. toy_hash) (λ h. toy-laws) fed (1 ∷ 4 ∷ 2 ∷ [])
transcript = update (2 ∷ []) (update (1 ∷ 4 ∷ []) (new (some 5) none none made))
