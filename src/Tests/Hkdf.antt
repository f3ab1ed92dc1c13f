-- ===== src/Tests/Hkdf.antt =====
-- HMAC and HKDF over a hash that can be run by hand.
use picotls.Prelude.{
  ℕ, ◌%◌, ◌≡◌, refl, true, some, List, [], ◌∷◌, ◌++◌, arith, length, get_or, take, ok,
}
use picotls.Hkdf.{HashAlgorithm, HashLaws, hkdf_extract, hkdf_expand}
use picotls.Hkdf.Hmac.{hmac_of_any_key, hkdf_extract-hmac}
use picotls.Hkdf.Expand.{blocks, hkdf_expand-blocks}

-- The length and the first byte.
abbrev pub toy_hash : List ℕ → List ℕ
toy_hash m = (length m % 256) ∷ (get_or m 0 0) ∷ []

abbrev pub toy : HashAlgorithm (List ℕ)
toy = record {
  block_size = 4;
  digest_size = 2;
  create = some [];
  update = λ c m. c ++ m;
  final_reset = λ c. (toy_hash c, []);
  final_snapshot = toy_hash;
  final_free = toy_hash;
  empty_digest = 0 ∷ 0 ∷ [];
}

pub toy-laws : HashLaws toy toy_hash
toy-laws = record {
  fed = λ c. c;
  create-fed = λ c e. cc;
  update-fed = λ c m. refl;
  final_reset-hash = λ c. refl;
  final_reset-fed = λ c. refl;
  final_snapshot-hash = λ c. refl;
  final_free-hash = λ c. refl;
  empty_digest-hash = refl;
  length-hash = λ m. refl;
}

hkdf_extract-hmac_example :
    (hkdf_extract toy true [] (1 ∷ 2 ∷ [])
      ≡ ok (hmac_of_any_key toy_hash 4 (0 ∷ 0 ∷ []) (1 ∷ 2 ∷ [])))
    × (hkdf_extract toy true (3 ∷ 4 ∷ 5 ∷ []) (1 ∷ 2 ∷ [])
        ≡ ok (hmac_of_any_key toy_hash 4 (3 ∷ 4 ∷ 5 ∷ []) (1 ∷ 2 ∷ [])))
hkdf_extract-hmac_example =
    hkdf_extract-hmac toy toy_hash toy-laws [] 3 (4 ∷ 5 ∷ []) (1 ∷ 2 ∷ []) refl (omega arith)
      (omega arith)

hkdf_expand-blocks_example :
    hkdf_expand toy true 5 (7 ∷ 8 ∷ []) (9 ∷ [])
    ≡ some (ok (take 5 (blocks (hmac_of_any_key toy_hash 4 (7 ∷ 8 ∷ [])) (9 ∷ []) 3 0 [])))
hkdf_expand-blocks_example =
    hkdf_expand-blocks toy toy_hash toy-laws [] 3 5 (7 ∷ 8 ∷ []) (9 ∷ []) refl (omega arith)
      (omega arith) (omega arith) (omega arith)
