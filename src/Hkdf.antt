-- ===== src/Hkdf.antt =====
-- HMAC and HKDF, lib/picotls.c: `hmac_update`, `hmac_apply_key`, `hmac_final`, `ptls_hmac_create`,
-- `ptls_hkdf_extract`, `ptls_hkdf_expand`, `hkdf_expand_label`. The hash is outside the repository:
-- an argument `HashAlgorithm`, with the documented behaviour of its contexts in `HashLaws`.
-- The source asserts that a key is no longer than a block; the definitions are about such keys alone,
-- and the theorems on HMAC's keys have the assertion as a premise.
pub mod Hmac
pub mod Expand
use picotls.Prelude.{
  ℕ, zero, suc, ◌+◌, ◌-◌, ◌*◌, ◌%◌, ◌^◌, min, bit_xor, ◌≡◌, Bool, Option, none, some, List, [], ◌∷◌,
  ◌++◌, map, ltb, if◌then◌else◌, length, take, replicate, Result, ok, err,
}
use picotls.Code.{error_no_memory}
use picotls.Wire.{bytes, push16, push_block}

-- `ptls_hash_algorithm_t`, with contexts in `Ctx`: `create` is `none` for NULL; `final_reset` gives
-- the digest and the context in its initial state, the others the digest alone.
pub record HashAlgorithm (Ctx : Type 0) : Type 0 where
  pub block_size : ℕ
  pub digest_size : ℕ
  pub create : Option Ctx
  pub update : Ctx → List ℕ → Ctx
  pub final_reset : Ctx → List ℕ × Ctx
  pub final_snapshot : Ctx → List ℕ
  pub final_free : Ctx → List ℕ
  pub empty_digest : List ℕ

-- A context stands for what was fed to it since its initial state; the digest is a function of that.
pub record HashLaws {Ctx : Type 0} (algo : HashAlgorithm Ctx) (hash : List ℕ → List ℕ)
    : Type 0 where
  pub fed : Ctx → List ℕ
  pub create-fed : (c : Ctx) → algo.create ≡ some c → fed c ≡ []
  pub update-fed : (c : Ctx) (m : List ℕ) → fed (algo.update c m) ≡ fed c ++ m
  pub final_reset-hash : (c : Ctx) → (algo.final_reset c).0 ≡ hash (fed c)
  pub final_reset-fed : (c : Ctx) → fed (algo.final_reset c).1 ≡ []
  pub final_snapshot-hash : (c : Ctx) → algo.final_snapshot c ≡ hash (fed c)
  pub final_free-hash : (c : Ctx) → algo.final_free c ≡ hash (fed c)
  pub empty_digest-hash : take algo.digest_size algo.empty_digest ≡ hash []
  pub length-hash : (m : List ℕ) → length (hash m) ≡ algo.digest_size

-- `struct st_picotls_hmac_context_t`; `key` has `block_size` bytes.
pub record HmacContext (Ctx : Type 0) : Type 0 where
  pub hash : Ctx
  pub key : List ℕ

-- `ctx->key[i] ^= pad`, on every byte.
unfoldable pub xor_pad : ℕ → List ℕ → List ℕ
xor_pad pad key = map (λ (b : ℕ). bit_xor b pad) key

-- The key, with zero bytes up to a block.
unfoldable pub pad_key : ℕ → List ℕ → List ℕ
pad_key block_size key = key ++ replicate (block_size - length key) 0

-- The structure HkdfLabel.
unfoldable pub hkdf_label : ℕ → List ℕ → List ℕ → List ℕ → List ℕ
hkdf_label outlen label hash_value label_prefix =
    push16 (outlen % 2 ^ 16)
    ++ (push_block (bytes 1) (label_prefix ++ label) ++ push_block (bytes 1) hash_value)

module _ {Ctx : Type 0} (algo : HashAlgorithm Ctx) where
  unfoldable pub hmac_update : HmacContext Ctx → List ℕ → HmacContext Ctx
  hmac_update ctx src = record ctx { hash = algo.update ctx.hash src }

  unfoldable pub hmac_apply_key : HmacContext Ctx → ℕ → HmacContext Ctx
  hmac_apply_key ctx pad =
      let key = xor_pad pad ctx.key in
      record { hash = algo.update ctx.hash key; key = xor_pad pad key }

  -- The part of `hmac_final` in front of the outer hash's end, with a place for the digest.
  unfoldable pub hmac_outer : HmacContext Ctx → HmacContext Ctx
  hmac_outer ctx =
      let (md, hash) = algo.final_reset ctx.hash in
      let ctx' = hmac_apply_key (record ctx { hash = hash }) 0x5c in
      record ctx' { hash = algo.update ctx'.hash (take algo.digest_size md) }

  -- `hmac_final` with PTLS_HASH_FINAL_MODE_RESET
  unfoldable pub hmac_final_reset : HmacContext Ctx → List ℕ × HmacContext Ctx
  hmac_final_reset ctx =
      let ctx' = hmac_outer ctx in
      let (md, hash) = algo.final_reset ctx'.hash in
      (md, hmac_apply_key (record ctx' { hash = hash }) 0x36)

  -- `hmac_final` with PTLS_HASH_FINAL_MODE_FREE
  unfoldable pub hmac_final_free : HmacContext Ctx → List ℕ
  hmac_final_free ctx = algo.final_free (hmac_outer ctx).hash

  -- `has_memory` says whether `malloc` returns the context. `length key` is at most the block size:
  -- the source asserts it, and an abort has no value here.
  unfoldable pub hmac_create : Bool → List ℕ → Option (HmacContext Ctx)
  hmac_create has_memory key = elim algo.create [
    | none ↦ none
    | some hash ↦
        if has_memory
        then some (hmac_apply_key (record { hash = hash; key = pad_key algo.block_size key }) 0x36)
        else none
  ]

  -- An empty salt stands for `digest_size` zero bytes.
  unfoldable pub salt_or_zeroes : List ℕ → List ℕ
  salt_or_zeroes [] = replicate algo.digest_size 0
  salt_or_zeroes (b ∷ salt) = b ∷ salt

  unfoldable pub hkdf_extract : Bool → List ℕ → List ℕ → Result (List ℕ)
  hkdf_extract has_memory salt ikm = elim (hmac_create has_memory (salt_or_zeroes salt)) [
    | none ↦ err error_no_memory
    | some ctx ↦ ok (hmac_final_free (hmac_update ctx ikm))
  ]

  -- The context at the start of a round: made in the first round, else fed the last digest.
  unfoldable pub round_context :
      Bool → List ℕ → Option (HmacContext Ctx) → List ℕ → Option (HmacContext Ctx)
  round_context has_memory prk none digest = hmac_create has_memory prk
  round_context has_memory prk (some ctx) digest =
      some (hmac_update ctx (take algo.digest_size digest))

  -- A round's digest, and the context behind it.
  unfoldable pub expand_round : HmacContext Ctx → List ℕ → ℕ → List ℕ × HmacContext Ctx
  expand_round ctx info i =
      hmac_final_reset (hmac_update (hmac_update ctx info) (((i + 1) % 256) ∷ []))

  -- What a round copies to the output: as much of the digest as the output has room for.
  unfoldable pub output_part : ℕ → ℕ → List ℕ → List ℕ
  output_part outlen i digest =
      let off_start = i * algo.digest_size in
      take (min (off_start + algo.digest_size) outlen - off_start) digest

  -- The loop; `none` is an end of the model's fuel. The output so far has `i * digest_size` bytes.
  unfoldable pub expand_rounds :
      ℕ
      → Bool
      → ℕ
      → List ℕ
      → List ℕ
      → ℕ
      → Option (HmacContext Ctx)
      → List ℕ
      → List ℕ
      → Option (Result (List ℕ))
  expand_rounds zero has_memory outlen prk info i hmac digest output = none
  expand_rounds (suc rounds) has_memory outlen prk info i hmac digest output =
      let go_on : Option (Result (List ℕ)) = elim (round_context has_memory prk hmac digest) [
        | none ↦ some (err error_no_memory)
        | some ctx ↦
            let (md, ctx') = expand_round ctx info i in
            expand_rounds rounds has_memory outlen prk info (i + 1) (some ctx') md
              (output ++ output_part outlen i md)
      ] in
      if ltb (i * algo.digest_size) outlen then go_on else some (ok output)

  -- A round gives a byte at least.
  unfoldable pub hkdf_expand : Bool → ℕ → List ℕ → List ℕ → Option (Result (List ℕ))
  hkdf_expand has_memory outlen prk info =
      expand_rounds (outlen + 1) has_memory outlen prk info 0 none [] []

  unfoldable pub hkdf_expand_label :
      Bool → ℕ → List ℕ → List ℕ → List ℕ → List ℕ → Option (Result (List ℕ))
  hkdf_expand_label has_memory outlen secret label hash_value label_prefix =
      hkdf_expand has_memory outlen secret (hkdf_label outlen label hash_value label_prefix)
