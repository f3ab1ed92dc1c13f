-- ===== src/Hkdf/Hmac.antt =====
-- The context of `ptls_hmac_create` computes HMAC as RFC 2104 defines it.
use picotls.Prelude.{
  ℕ, ◌-◌, ◌≤◌, bit_xor, map, leb, le→leb, if◌then◌else◌, length, length-replicate, replicate, Bool,
  ◌≡◌, refl, sym, ap, ◌∙◌, true, Option, none, some, List, [], ◌∷◌, ◌++◌, append-nil, append_assoc,
  arith, take, take_le, Result, ok, err,
}
use mathlib.Core.Path.{ap₂}
use picotls.Prelude.Bits.{bit_xor-cancel}
use picotls.Code.{error_no_memory}
use picotls.Hkdf.{
  HashAlgorithm, HashLaws, HmacContext, xor_pad, pad_key, hmac_update, hmac_apply_key, hmac_outer,
  hmac_final_reset, hmac_final_free, hmac_create, salt_or_zeroes, hkdf_extract,
}

-- A block for `key`: zero bytes behind it, and `pad` on every byte.
abbrev pub key_block : ℕ → ℕ → List ℕ → List ℕ
key_block pad size key = map (λ (b : ℕ). bit_xor b pad) (key ++ replicate (size - length key) 0)

-- RFC 2104, with a key of at most a block.
abbrev pub hmac : (List ℕ → List ℕ) → ℕ → List ℕ → List ℕ → List ℕ
hmac hash block_size key text =
    hash (key_block 0x5c block_size key ++ hash (key_block 0x36 block_size key ++ text))

-- RFC 2104, where a key of more than a block is hashed first.
abbrev pub hmac_of_any_key : (List ℕ → List ℕ) → ℕ → List ℕ → List ℕ → List ℕ
hmac_of_any_key hash block_size key text =
    hmac hash block_size (if leb (length key) block_size then key else hash key) text

pub hmac_of_any_key_short :
    (hash : List ℕ → List ℕ) (block_size : ℕ) (key : List ℕ)
    → length key ≤ block_size
    → hmac_of_any_key hash block_size key ≡ hmac hash block_size key
hmac_of_any_key_short hash block_size key h =
    ap {B = List ℕ → List ℕ}
      (λ (short : Bool) text. hmac hash block_size (if short then key else hash key) text)
      (le→leb (length key) block_size h)

xor_pad_twice : (pad : ℕ) (key : List ℕ) → xor_pad pad (xor_pad pad key) ≡ key
unfolding xor_pad
xor_pad_twice pad [] = refl
xor_pad_twice pad (b ∷ key) = rw (bit_xor-cancel b pad, xor_pad_twice pad key) refl

module _ {Ctx : Type 0} (algo : HashAlgorithm Ctx) (hash : List ℕ → List ℕ)
    (laws : HashLaws algo hash) (key : List ℕ) where
  -- A context in which `text` was fed to the inner hash.
  abbrev pub Keyed : HmacContext Ctx → List ℕ → Type 0
  Keyed ctx text =
      (ctx.key ≡ pad_key algo.block_size key)
      × (laws.fed ctx.hash ≡ xor_pad 0x36 (pad_key algo.block_size key) ++ text)

  apply_key_fed :
      (pad : ℕ) (ctx : HmacContext Ctx)
      → ctx.key ≡ pad_key algo.block_size key
      → laws.fed ctx.hash ≡ []
      → (laws.fed (hmac_apply_key algo ctx pad).hash ≡ xor_pad pad (pad_key algo.block_size key))
        × ((hmac_apply_key algo ctx pad).key ≡ pad_key algo.block_size key)
  unfolding hmac_apply_key
  apply_key_fed pad ctx k e = (
    laws.update-fed ctx.hash (xor_pad pad ctx.key)
        ∙ ap (λ t. t ++ xor_pad pad ctx.key) e
        ∙ ap (xor_pad pad) k,
    xor_pad_twice pad ctx.key ∙ k,
  )

  -- A context back in its initial state.
  reset-Keyed :
      (ctx : HmacContext Ctx)
      → ctx.key ≡ pad_key algo.block_size key
      → laws.fed ctx.hash ≡ []
      → Keyed (hmac_apply_key algo ctx 0x36) []
  reset-Keyed ctx k e =
      let (fed, same) = apply_key_fed 0x36 ctx k e in
      (same, fed ∙ sym (append-nil (xor_pad 0x36 (pad_key algo.block_size key))))

  pub hmac_update-Keyed :
      (ctx : HmacContext Ctx) (text src : List ℕ)
      → Keyed ctx text
      → Keyed (hmac_update algo ctx src) (text ++ src)
  unfolding hmac_update
  hmac_update-Keyed ctx text src h = (
    h.0,
    laws.update-fed ctx.hash src
        ∙ ap (λ t. t ++ src) h.1
        ∙ append_assoc (xor_pad 0x36 (pad_key algo.block_size key)) text src,
  )

  pub hmac_create-Keyed :
      (c : Ctx)
      → algo.create ≡ some c
      → (ctx : HmacContext Ctx) × (hmac_create algo true key ≡ some ctx) × Keyed ctx []
  unfolding hmac_create
  hmac_create-Keyed c e =
      let start : HmacContext Ctx = record { hash = c; key = pad_key algo.block_size key } in
      (hmac_apply_key algo start 0x36, rw e refl, reset-Keyed start refl (laws.create-fed c e))

  outer_fed :
      (ctx : HmacContext Ctx) (text : List ℕ)
      → Keyed ctx text
      → (laws.fed (hmac_outer algo ctx).hash
          ≡ xor_pad 0x5c (pad_key algo.block_size key)
            ++ hash (xor_pad 0x36 (pad_key algo.block_size key) ++ text))
        × ((hmac_outer algo ctx).key ≡ pad_key algo.block_size key)
  unfolding hmac_outer
  outer_fed ctx text h =
      let inner : List ℕ = xor_pad 0x36 (pad_key algo.block_size key) ++ text in
      let md : (algo.final_reset ctx.hash).0 ≡ hash inner =
        laws.final_reset-hash ctx.hash ∙ ap hash h.1 in
      let reset : HmacContext Ctx = record ctx { hash = (algo.final_reset ctx.hash).1 } in
      let (fed, same) = apply_key_fed 0x5c reset h.0 (laws.final_reset-fed ctx.hash) in
      let digest : take algo.digest_size (algo.final_reset ctx.hash).0 ≡ hash inner =
        ap (take algo.digest_size) md
        ∙ take_le algo.digest_size (hash inner) (omega (arith, laws.length-hash inner)) in
      (
        laws.update-fed (hmac_apply_key algo reset 0x5c).hash
              (take algo.digest_size (algo.final_reset ctx.hash).0)
            ∙ ap₂ (λ s t. s ++ t) fed digest,
        same,
      )

  pub hmac_final_free-Keyed :
      (ctx : HmacContext Ctx) (text : List ℕ)
      → Keyed ctx text
      → hmac_final_free algo ctx ≡ hmac hash algo.block_size key text
  unfolding hmac_final_free xor_pad pad_key
  hmac_final_free-Keyed ctx text h =
      laws.final_free-hash (hmac_outer algo ctx).hash ∙ ap hash (outer_fed ctx text h).0

  pub hmac_final_reset-Keyed :
      (ctx : HmacContext Ctx) (text : List ℕ)
      → Keyed ctx text
      → ((hmac_final_reset algo ctx).0 ≡ hmac hash algo.block_size key text)
        × Keyed (hmac_final_reset algo ctx).1 []
  unfolding hmac_final_reset xor_pad pad_key
  hmac_final_reset-Keyed ctx text h =
      let outer : HmacContext Ctx = hmac_outer algo ctx in
      let (fed, same) = outer_fed ctx text h in
      let reset : HmacContext Ctx = record outer { hash = (algo.final_reset outer.hash).1 } in
      (
        laws.final_reset-hash outer.hash ∙ ap hash fed,
        reset-Keyed reset same (laws.final_reset-fed outer.hash),
      )

-- HKDF-Extract, whatever salt it is given.
pub hkdf_extract_lem :
    {Ctx : Type 0} (algo : HashAlgorithm Ctx) (hash : List ℕ → List ℕ)
    → HashLaws algo hash
    → (c : Ctx) (salt ikm : List ℕ) → algo.create ≡ some c
    → hkdf_extract algo true salt ikm
      ≡ ok (hmac hash algo.block_size (salt_or_zeroes algo salt) ikm)
unfolding hkdf_extract
hkdf_extract_lem {Ctx = Ctx} algo hash laws c salt ikm e =
    let key : List ℕ = salt_or_zeroes algo salt in
    let (ctx, made, keyed) = hmac_create-Keyed algo hash laws key c e in
    ap answer made
    ∙ ap ok (
        hmac_final_free-Keyed algo hash laws key (hmac_update algo ctx ikm) ikm
          (hmac_update-Keyed algo hash laws key ctx [] ikm keyed))
  where
    answer : Option (HmacContext Ctx) → Result (List ℕ)
    answer made = elim made [
      | none ↦ err error_no_memory
      | some ctx ↦ ok (hmac_final_free algo (hmac_update algo ctx ikm))
    ]

-- When memory and a hash context are there, HKDF-Extract of an empty salt is the HMAC of RFC 2104
-- of the input under `digest_size` zero bytes, and of a salt that is not empty the HMAC under the
-- salt (RFC 5869, 2.2). A digest, and the salt, are no longer than a block, as the source asserts.
pub hkdf_extract-hmac :
    {Ctx : Type 0} (algo : HashAlgorithm Ctx) (hash : List ℕ → List ℕ)
    → HashLaws algo hash
    → (c : Ctx) (b : ℕ) (salt ikm : List ℕ) → algo.create ≡ some c
    → algo.digest_size ≤ algo.block_size
    → length (b ∷ salt) ≤ algo.block_size
    → (hkdf_extract algo true [] ikm
        ≡ ok (hmac_of_any_key hash algo.block_size (replicate algo.digest_size 0) ikm))
      × (hkdf_extract algo true (b ∷ salt) ikm
          ≡ ok (hmac_of_any_key hash algo.block_size (b ∷ salt) ikm))
unfolding salt_or_zeroes
hkdf_extract-hmac algo hash laws c b salt ikm e short_digest short_salt =
    let zeroes : List ℕ = replicate algo.digest_size 0 in
    let by_key : (key : List ℕ)
        → length key ≤ algo.block_size
        → hmac hash algo.block_size key ikm ≡ hmac_of_any_key hash algo.block_size key ikm =
      λ key h. ap (λ f. f ikm) (sym (hmac_of_any_key_short hash algo.block_size key h)) in
    (
      hkdf_extract_lem algo hash laws c [] ikm e
          ∙ ap ok (by_key zeroes (omega (arith, length-replicate {A = ℕ} algo.digest_size 0))),
      hkdf_extract_lem algo hash laws c (b ∷ salt) ikm e ∙ ap ok (by_key (b ∷ salt) short_salt),
    )
