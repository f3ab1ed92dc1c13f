-- ===== src/Hkdf/Expand.antt =====
-- `ptls_hkdf_expand` computes HKDF-Expand as RFC 5869 defines it.
use picotls.Prelude.{
  ℕ, zero, suc, ◌+◌, ◌-◌, ◌*◌, ◌%◌, ◌≤◌, ◌<◌, min, ◌≡◌, refl, sym, ap, ◌∙◌, inl, inr, true, false,
  Option, none, some, List, [], ◌∷◌, ◌++◌, append-nil, append_assoc, arith, ltb, leb, ltb→lt,
  lt→ltb, ltb→le, le→ltb, leb→le, Bool-cases, length, take, take_le, ok,
}
use mathlib.Core.Path.{ap₂, subst}
use picotls.Hkdf.{
  HashAlgorithm, HashLaws, HmacContext, hmac_update, round_context, expand_round, output_part,
  expand_rounds, hkdf_expand,
}
use picotls.Hkdf.Hmac.{
  key_block, hmac, hmac_of_any_key, hmac_of_any_key_short, Keyed, hmac_update-Keyed,
  hmac_create-Keyed, hmac_final_reset-Keyed,
}

-- T(i + 1) | T(i + 2) | ... of RFC 5869, 2.3, `n` of them, where `last` is T(i).
abbrev pub blocks : (List ℕ → List ℕ) → List ℕ → ℕ → ℕ → List ℕ → List ℕ
blocks mac info zero i last = []
blocks mac info (suc n) i last =
    let t = mac (last ++ (info ++ (i + 1) ∷ [])) in t ++ blocks mac info n (i + 1) t

take-empty : (k : ℕ) → take {A = ℕ} k [] ≡ []
take-empty zero = refl
take-empty (suc k) = refl

take-append : (k : ℕ) (xs ys : List ℕ) → take k (xs ++ ys) ≡ take k xs ++ take (k - length xs) ys
take-append k [] ys =
    let same : k ≡ k - 0 = omega arith in
    ap (λ (n : ℕ). take n ys) same ∙ ap (λ t. t ++ take (k - 0) ys) (sym (take-empty k))
take-append zero (x ∷ xs) ys =
    let none_left : 0 ≡ 0 - length (x ∷ xs) = omega arith in ap (λ (n : ℕ). take n ys) none_left
take-append (suc k) (x ∷ xs) ys =
    let left : k - length xs ≡ suc k - length (x ∷ xs) = omega arith in
    ap (λ t. x ∷ t) (take-append k xs ys ∙ ap (λ (n : ℕ). take k xs ++ take n ys) left)

take-min : (k m : ℕ) (t : List ℕ) → min k (length t) ≡ m → take m t ≡ take k t
take-min k m t h = elim (Bool-cases (leb k (length t))) [
  | inl small ↦
      let same : m ≡ k = omega (arith, leb→le k (length t) small) in ap (λ (n : ℕ). take n t) same
  | inr large ↦
      let more : length t < k = leb→gt k (length t) large in
      take_le m t (omega arith) ∙ sym (take_le k t (omega arith))
]
  where
    leb→gt : (a b : ℕ) → leb a b ≡ false → b < a
    leb→gt a b h = ground arith

same_sum : (i n : ℕ) → i + 1 + n ≡ i + suc n
same_sum i n = omega arith

module _ {Ctx : Type 0} (algo : HashAlgorithm Ctx) (hash : List ℕ → List ℕ)
    (laws : HashLaws algo hash) (prk info : List ℕ) (outlen : ℕ) where
  -- The context from which a round starts.
  abbrev Ready : ℕ → Option (HmacContext Ctx) → List ℕ → Type 0
  Ready i hmac last =
      (ctx : HmacContext Ctx) × (round_context algo true prk hmac last ≡ some ctx)
      × Keyed algo hash laws prk ctx last

  expand_round-hmac :
      (i : ℕ) (ctx : HmacContext Ctx) (last : List ℕ)
      → i < 255
      → Keyed algo hash laws prk ctx last
      → ((expand_round algo ctx info i).0
          ≡ hmac hash algo.block_size prk (last ++ (info ++ (i + 1) ∷ [])))
        × Keyed algo hash laws prk (expand_round algo ctx info i).1 []
  unfolding expand_round
  expand_round-hmac i ctx last h keyed =
      let gen : (i + 1) % 256 ≡ i + 1 = omega arith in
      let fed =
        hmac_update-Keyed algo hash laws prk (hmac_update algo ctx info) (last ++ info)
          (((i + 1) % 256) ∷ []) (hmac_update-Keyed algo hash laws prk ctx last info keyed) in
      let (digest, again) =
        hmac_final_reset-Keyed algo hash laws prk
          (hmac_update algo (hmac_update algo ctx info) (((i + 1) % 256) ∷ []))
          ((last ++ info) ++ ((i + 1) % 256) ∷ []) fed in
      (
        digest
            ∙ ap (hmac hash algo.block_size prk) (
                append_assoc last info (((i + 1) % 256) ∷ [])
                ∙ ap (λ (g : ℕ). last ++ (info ++ g ∷ [])) gen),
        again,
      )

  length-hmac : (text : List ℕ) → length (hmac hash algo.block_size prk text) ≡ algo.digest_size
  length-hmac text =
      laws.length-hash
        (key_block 0x5c algo.block_size prk ++ hash (key_block 0x36 algo.block_size prk ++ text))

  next-Ready :
      (i : ℕ) (ctx : HmacContext Ctx) (t : List ℕ)
      → length t ≡ algo.digest_size
      → Keyed algo hash laws prk ctx []
      → Ready i (some ctx) t
  unfolding round_context
  next-Ready i ctx t size keyed =
      let fed : List ℕ = take algo.digest_size t in
      (
        hmac_update algo ctx fed,
        refl,
        subst (λ s. Keyed algo hash laws prk (hmac_update algo ctx fed) s)
            (take_le algo.digest_size t (omega arith))
            (hmac_update-Keyed algo hash laws prk ctx [] fed keyed),
      )

  next_start : (i : ℕ) → (i + 1) * algo.digest_size ≡ i * algo.digest_size + algo.digest_size
  next_start i = grind arith

  -- What a round puts out, and then the rest.
  part_append :
      (i : ℕ) (t rest : List ℕ)
      → length t ≡ algo.digest_size
      → output_part algo outlen i t ++ take (outlen - (i + 1) * algo.digest_size) rest
        ≡ take (outlen - i * algo.digest_size) (t ++ rest)
  unfolding output_part
  part_append i t rest h =
      let start : ℕ = i * algo.digest_size in
      ap₂ (λ s (k : ℕ). s ++ take k rest)
        (take-min (outlen - start) (min (start + algo.digest_size) outlen - start) t (omega arith))
        (omega (arith, next_start i))
      ∙ sym (take-append (outlen - start) t rest)

  -- A round that has room to fill.
  expand_step :
      (rounds i : ℕ) (h : Option (HmacContext Ctx)) (ctx : HmacContext Ctx) (last output : List ℕ)
      → i * algo.digest_size < outlen
      → round_context algo true prk h last ≡ some ctx
      → expand_rounds algo (suc rounds) true outlen prk info i h last output
        ≡ expand_rounds algo rounds true outlen prk info
            (i + 1)
            (some (expand_round algo ctx info i).1)
            (expand_round algo ctx info i).0
            (output ++ output_part algo outlen i (expand_round algo ctx info i).0)
  unfolding expand_rounds
  expand_step rounds i h ctx last output more made =
      rw (lt→ltb (i * algo.digest_size) outlen more, made) refl

  -- The output is full.
  expand_end :
      (rounds i : ℕ) (h : Option (HmacContext Ctx)) (last output rest : List ℕ)
      → outlen ≤ i * algo.digest_size
      → expand_rounds algo (suc rounds) true outlen prk info i h last output
        ≡ some (ok (output ++ take (outlen - i * algo.digest_size) rest))
  unfolding expand_rounds
  expand_end rounds i h last output rest full =
      let no_room : 0 ≡ outlen - i * algo.digest_size = omega arith in
      rw (le→ltb (i * algo.digest_size) outlen full) (
        ap (λ t. some (ok t))
          (sym (append-nil output) ∙ ap (λ (k : ℕ). output ++ take k rest) no_room))

  expand_rounds-blocks :
      (n rounds i : ℕ) (h : Option (HmacContext Ctx)) (last output : List ℕ)
      → Ready i h last
      → 0 < algo.digest_size
      → i + n ≤ 255
      → outlen ≤ (i + n) * algo.digest_size
      → 1 ≤ rounds
      → outlen < i * algo.digest_size + rounds
      → expand_rounds algo rounds true outlen prk info i h last output
        ≡ some (
            ok (
              output
              ++ take
                  (outlen - i * algo.digest_size)
                  (blocks (hmac hash algo.block_size prk) info n i last)))
  expand_rounds-blocks n zero i h last output ready pos few room some_round fuel =
      absurd (omega arith)
  expand_rounds-blocks zero (suc rounds) i h last output ready pos few room some_round fuel =
      let same : (i + 0) * algo.digest_size ≡ i * algo.digest_size =
        ap (λ (k : ℕ). k * algo.digest_size) (omega arith) in
      expand_end rounds i h last output [] (omega arith)
  expand_rounds-blocks (suc n) (suc rounds) i h last output ready pos few room some_round fuel =
      let mac = hmac hash algo.block_size prk in
      elim (Bool-cases (ltb (i * algo.digest_size) outlen)) [
        | inr full ↦
            expand_end rounds i h last output (blocks mac info (suc n) i last)
              (ltb→le (i * algo.digest_size) outlen full)
        | inl more ↦
            let (ctx, made, keyed) = ready in
            let t : List ℕ = mac (last ++ (info ++ (i + 1) ∷ [])) in
            let rest : List ℕ = blocks mac info n (i + 1) t in
            let (digest, again) = expand_round-hmac i ctx last (omega arith) keyed in
            let ctx' : HmacContext Ctx = (expand_round algo ctx info i).1 in
            let room' : outlen ≤ (i + 1 + n) * algo.digest_size =
              omega (arith, ap (λ (k : ℕ). k * algo.digest_size) (same_sum i n)) in
            let size : length t ≡ algo.digest_size = length-hmac (last ++ (info ++ (i + 1) ∷ [])) in
            expand_step rounds i h ctx last output (ltb→lt (i * algo.digest_size) outlen more) made
            ∙ ap
                (λ md.
                  expand_rounds algo rounds true outlen prk info (i + 1) (some ctx') md
                    (output ++ output_part algo outlen i md))
                digest
            ∙ expand_rounds-blocks n rounds (i + 1) (some ctx') t
                (output ++ output_part algo outlen i t) (next-Ready (i + 1) ctx' t size again) pos
                (omega arith) room' (omega (arith, ltb→lt (i * algo.digest_size) outlen more))
                (omega (arith, next_start i, ltb→lt (i * algo.digest_size) outlen more))
            ∙ ap (λ u. some (ok u))
                (append_assoc output (output_part algo outlen i t)
                    (take (outlen - (i + 1) * algo.digest_size) rest)
                  ∙ ap (λ u. output ++ u) (part_append i t rest size))
      ]

-- HKDF-Expand, whatever key it is given.
pub hkdf_expand_lem :
    {Ctx : Type 0} (algo : HashAlgorithm Ctx) (hash : List ℕ → List ℕ)
    → HashLaws algo hash
    → (c : Ctx) (n outlen : ℕ) (prk info : List ℕ) → algo.create ≡ some c
    → 0 < algo.digest_size
    → n ≤ 255
    → outlen ≤ n * algo.digest_size
    → hkdf_expand algo true outlen prk info
      ≡ some (ok (take outlen (blocks (hmac hash algo.block_size prk) info n 0 [])))
unfolding hkdf_expand round_context
hkdf_expand_lem algo hash laws c n outlen prk info made pos few room =
    let from_start : 0 + n ≡ n = omega arith in
    let all : outlen - 0 * algo.digest_size ≡ outlen = omega arith in
    expand_rounds-blocks algo hash laws prk info outlen n (outlen + 1) 0 none [] []
      (hmac_create-Keyed algo hash laws prk c made) pos (omega arith)
      (omega (arith, ap (λ (k : ℕ). k * algo.digest_size) from_start)) (omega arith) (omega arith)
    ∙ ap (λ (k : ℕ). some (ok (take k (blocks (hmac hash algo.block_size prk) info n 0 [])))) all

-- When memory and a hash context are there, a digest is not empty and `prk` is no longer than a
-- block, as the source asserts, HKDF-Expand of up to `n` digests, `n` at most 255, returns, and what
-- it returns are the first `outlen` bytes of T(1) | T(2) | ... | T(n) (RFC 5869, 2.3), each T of them
-- the HMAC of RFC 2104 under `prk` of the one before, `info` and its number.
pub hkdf_expand-blocks :
    {Ctx : Type 0} (algo : HashAlgorithm Ctx) (hash : List ℕ → List ℕ)
    → HashLaws algo hash
    → (c : Ctx) (n outlen : ℕ) (prk info : List ℕ) → algo.create ≡ some c
    → 0 < algo.digest_size
    → length prk ≤ algo.block_size
    → n ≤ 255
    → outlen ≤ n * algo.digest_size
    → hkdf_expand algo true outlen prk info
      ≡ some (ok (take outlen (blocks (hmac_of_any_key hash algo.block_size prk) info n 0 [])))
hkdf_expand-blocks algo hash laws c n outlen prk info made pos short few room =
    hkdf_expand_lem algo hash laws c n outlen prk info made pos few room
    ∙ ap (λ mac. some (ok (take outlen (blocks mac info n 0 []))))
        (sym (hmac_of_any_key_short hash algo.block_size prk short))
