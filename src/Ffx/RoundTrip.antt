-- ===== src/Ffx/RoundTrip.antt =====
-- `ffx_encrypt` of a context made for decryption undoes that of one made for encryption.
use picotls.Prelude.{
  ℕ, zero, suc, ◌+◌, ◌-◌, ◌/◌, ◌%◌, ◌^◌, ◌≤◌, ◌<◌, bit_and, ◌≡◌, refl, ap, ◌∙◌, Bool, true, false,
  List, [], ◌∷◌, ◌++◌, arith, ◌==◌, eq→==, length, take, drop, replicate, All, length-append,
  take-append-drop, length-take, length-drop, take-append_length, drop-append_length, All-drop, ok,
}
use picotls.Wire.{IsByte}
use picotls.Ffx.{
  FfxContext, ffx_setup_crypto, ffx_init, at_last, last_byte, xor_target, ffx_one_pass,
  encrypt_round, encrypt_rounds, restore_last, transform_halves, ffx_transform,
}
use picotls.Ffx.Masks.{
  mask_at, IsMasked, xor-IsMasked, masked_off, put_back, low_of_restored, inside-IsMasked,
}
use picotls.Ffx.Rounds.{reverse, length-xor_target, decrypt_rounds-encrypt_rounds}

pub length-at_last : (f : ℕ → ℕ) (bs : List ℕ) → length (at_last f bs) ≡ length bs
unfolding at_last
length-at_last f [] = refl
length-at_last f (b ∷ []) = refl
length-at_last f (b ∷ c ∷ rest) = ap (λ (n : ℕ). suc n) (length-at_last f (c ∷ rest))

last_byte-at_last :
    (f : ℕ → ℕ) (bs : List ℕ) → 0 < length bs → last_byte (at_last f bs) ≡ f (last_byte bs)
unfolding at_last last_byte
last_byte-at_last f [] h = absurd (omega arith)
last_byte-at_last f (b ∷ []) h = refl
last_byte-at_last f (b ∷ c ∷ []) h = refl
last_byte-at_last f (b ∷ c ∷ d ∷ rest) h = last_byte-at_last f (c ∷ d ∷ rest) (omega arith)

-- Two changes of the last byte that make one, which leaves it as it is.
at_last_undone :
    (f g : ℕ → ℕ) (bs : List ℕ)
    → f (g (last_byte bs)) ≡ last_byte bs
    → at_last f (at_last g bs) ≡ bs
unfolding at_last last_byte
at_last_undone f g [] e = refl
at_last_undone f g (b ∷ []) e = ap (λ (n : ℕ). n ∷ []) e
at_last_undone f g (b ∷ c ∷ []) e = ap (λ (n : ℕ). b ∷ n ∷ []) e
at_last_undone f g (b ∷ c ∷ d ∷ rest) e = ap (λ bs. b ∷ bs) (at_last_undone f g (c ∷ d ∷ rest) e)

IsByte-last_byte : (bs : List ℕ) → All IsByte bs → IsByte (last_byte bs)
unfolding last_byte
IsByte-last_byte [] h = omega arith
IsByte-last_byte (b ∷ []) h = h.0
IsByte-last_byte (b ∷ c ∷ rest) h = IsByte-last_byte (c ∷ rest) h.1

-- A pass on a masked target, under the context's own mask.
last_byte-xor_target :
    (k : ℕ) (target confusion : List ℕ)
    → k < 8
    → IsMasked k (last_byte target)
    → All IsByte confusion
    → IsMasked k (last_byte (xor_target (mask_at k) target confusion))
unfolding xor_target last_byte
last_byte-xor_target k [] confusion hk ht hc = ht
last_byte-xor_target k (t ∷ target) [] hk ht hc = ht
last_byte-xor_target k (t ∷ []) (c ∷ confusion) hk ht hc = xor-IsMasked k t c hk ht hc.0
last_byte-xor_target k (t ∷ u ∷ []) (c ∷ []) hk ht hc = ht
last_byte-xor_target k (t ∷ u ∷ []) (c ∷ d ∷ confusion) hk ht hc = xor-IsMasked k u d hk ht hc.1.0
last_byte-xor_target k (t ∷ u ∷ v ∷ target) (c ∷ []) hk ht hc = ht
last_byte-xor_target k (t ∷ u ∷ v ∷ target) (c ∷ d ∷ confusion) hk ht hc =
    last_byte-xor_target k (u ∷ v ∷ target) (d ∷ confusion) hk ht hc.1

module _ (confuse : List ℕ → List ℕ) (confuse_bytes : (iv : List ℕ) → All IsByte (confuse iv)) where
  -- The lengths of the halves, and the last byte's mask, through a loop.
  lengths :
      (n : ℕ) (ctx : FfxContext) (i : ℕ) (halves : List ℕ × List ℕ)
      → (length (encrypt_rounds confuse n ctx i halves).0 ≡ length halves.0)
        × (length (encrypt_rounds confuse n ctx i halves).1 ≡ length halves.1)
  unfolding encrypt_rounds encrypt_round ffx_one_pass
  lengths zero ctx i halves = (refl, refl)
  lengths (suc n) ctx i halves =
      let next = lengths n ctx (i + 2) (encrypt_round confuse ctx i halves) in
      (next.0 ∙ length-xor_target _ halves.0 _, next.1 ∙ length-xor_target _ halves.1 _)

  masked :
      (k n : ℕ) (ctx : FfxContext) (i : ℕ) (halves : List ℕ × List ℕ)
      → k < 8
      → ctx.mask_last_byte ≡ mask_at k
      → IsMasked k (last_byte halves.1)
      → IsMasked k (last_byte (encrypt_rounds confuse n ctx i halves).1)
  unfolding encrypt_rounds encrypt_round ffx_one_pass
  masked k zero ctx i halves hk e h = h
  masked k (suc n) ctx i halves hk e h =
      masked k n ctx (i + 2) (encrypt_round confuse ctx i halves) hk e
        (rw e (last_byte-xor_target k halves.1 _ hk h (confuse_bytes _)))

  -- The halves that encryption leaves, before the last byte is put together again.
  abbrev encrypted : FfxContext → List ℕ → List ℕ → List ℕ × List ℕ
  encrypted ctx left right =
      encrypt_rounds confuse ((ctx.nb_rounds + 1) / 2) ctx 0
        (left, at_last (λ b. bit_and b ctx.mask_last_byte) right)

  abbrev joined : FfxContext → List ℕ → List ℕ → List ℕ
  joined ctx left right =
      at_last (restore_last ctx.mask_last_byte (last_byte right)) (encrypted ctx left right).1

  transform_halves-enc :
      (ctx : FfxContext) (left right : List ℕ)
      → ctx.is_enc ≡ true
      → transform_halves confuse ctx left right
        ≡ (encrypted ctx left right).0 ++ joined ctx left right
  unfolding transform_halves
  transform_halves-enc ctx left right e = rw e refl

  -- What decryption makes of the last bytes.
  module _ (k : ℕ) (hk : k < 8) (ctx : FfxContext) (own_mask : ctx.mask_last_byte ≡ mask_at k)
      (left right : List ℕ) (some_right : 0 < length right) (bytes : All IsByte right) where
    middle : IsMasked k (last_byte (encrypted ctx left right).1)
    middle = masked k ((ctx.nb_rounds + 1) / 2) ctx 0 _ hk own_mask (
        rw (own_mask, last_byte-at_last (λ b. bit_and b (mask_at k)) right some_right)
          (inside-IsMasked k (last_byte right) hk (IsByte-last_byte right bytes)))

    joined_length : 0 < length (encrypted ctx left right).1
    joined_length = omega (
      arith,
      (lengths ((ctx.nb_rounds + 1) / 2) ctx 0
          (left, at_last (λ b. bit_and b ctx.mask_last_byte) right)).1,
      length-at_last (λ b. bit_and b ctx.mask_last_byte) right,
    )

    -- Masking takes off what was put back.
    masked_again :
        at_last (λ b. bit_and b ctx.mask_last_byte) (joined ctx left right)
        ≡ (encrypted ctx left right).1
    masked_again =
        at_last_undone (λ b. bit_and b ctx.mask_last_byte)
          (restore_last ctx.mask_last_byte (last_byte right)) (encrypted ctx left right).1
          (masked_off k ctx.mask_last_byte _ (last_byte right) hk own_mask middle
            (IsByte-last_byte right bytes))

    -- And the last byte comes out as it went in.
    restored :
        at_last
          (restore_last ctx.mask_last_byte (last_byte (joined ctx left right)))
          (at_last (λ b. bit_and b ctx.mask_last_byte) right)
        ≡ right
    restored =
        at_last_undone (restore_last ctx.mask_last_byte (last_byte (joined ctx left right)))
          (λ b. bit_and b ctx.mask_last_byte) right
          (ap
              (λ (b : ℕ).
                restore_last ctx.mask_last_byte b (bit_and (last_byte right) ctx.mask_last_byte))
              (last_byte-at_last (restore_last ctx.mask_last_byte (last_byte right))
                (encrypted ctx left right).1 joined_length)
            ∙ put_back k ctx.mask_last_byte _ (last_byte right) hk own_mask middle
                (IsByte-last_byte right bytes))

    halves_back :
        ctx.nb_rounds % 2 ≡ 0
        → transform_halves confuse
            (reverse ctx)
            (encrypted ctx left right).0
            (joined ctx left right)
          ≡ left ++ right
    unfolding transform_halves
    halves_back even =
        rw
          (
            masked_again,
            decrypt_rounds-encrypt_rounds confuse ((ctx.nb_rounds + 1) / 2) ctx 0
                (left, at_last (λ b. bit_and b ctx.mask_last_byte) right) (omega arith),
            restored,
          )
          refl

    -- The lengths of the two parts of the output.
    parts_length :
        (length (encrypted ctx left right).0 ≡ length left)
        × (length (joined ctx left right) ≡ length right)
    parts_length =
        let (l, r) =
          lengths ((ctx.nb_rounds + 1) / 2) ctx 0
            (left, at_last (λ b. bit_and b ctx.mask_last_byte) right) in
        (
          l,
          length-at_last _ (encrypted ctx left right).1
              ∙ (r ∙ length-at_last (λ b. bit_and b ctx.mask_last_byte) right),
        )

  -- The same for an input of the context's length.
  transform_back :
      (k : ℕ) (ctx : FfxContext) (input : List ℕ)
      → k < 8
      → ctx.mask_last_byte ≡ mask_at k
      → ctx.is_enc ≡ true
      → ctx.nb_rounds % 2 ≡ 0
      → ctx.nb_left < ctx.byte_length
      → length input ≡ ctx.byte_length
      → All IsByte input
      → ffx_transform confuse (reverse ctx) (ffx_transform confuse ctx input) ≡ input
  unfolding ffx_transform
  transform_back k ctx input hk own_mask enc even short size bytes =
      let left : List ℕ = take ctx.nb_left input in
      let right : List ℕ = drop ctx.nb_left input in
      let out : List ℕ = (encrypted ctx left right).0 ++ joined ctx left right in
      let left_size : length left ≡ ctx.nb_left = omega (arith, length-take ctx.nb_left input) in
      let some_right : 0 < length right = omega (arith, length-drop ctx.nb_left input) in
      let right_bytes : All IsByte right = All-drop IsByte ctx.nb_left input bytes in
      let sizes = parts_length k hk ctx own_mask left right some_right right_bytes in
      let same : (length input == ctx.byte_length) ≡ true =
        eq→== (length input) ctx.byte_length size in
      let out_same : (length out == ctx.byte_length) ≡ true = eq→== (length out) ctx.byte_length (
        omega (
          arith,
          length-append (encrypted ctx left right).0 (joined ctx left right),
          sizes.0,
          sizes.1,
          length-take ctx.nb_left input,
          length-drop ctx.nb_left input,
        )) in
      let here : ctx.nb_left ≡ length (encrypted ctx left right).0 =
        omega (arith, sizes.0, left_size) in
      rw (same, transform_halves-enc ctx left right enc, out_same)
        (ap (λ (n : ℕ). transform_halves confuse (reverse ctx) (take n out) (drop n out)) here
          ∙ rw
              (
                take-append_length (encrypted ctx left right).0 (joined ctx left right),
                drop-append_length (encrypted ctx left right).0 (joined ctx left right),
                halves_back k hk ctx own_mask left right some_right right_bytes even,
              )
              (take-append-drop ctx.nb_left input))

  -- What a setup that succeeds leaves.
  setup_fields :
      (has_cipher is_enc : Bool) (nb_rounds bit_length : ℕ) (ctx : FfxContext)
      → ffx_setup_crypto has_cipher is_enc nb_rounds bit_length ≡ ok ctx
      → (2 ≤ (bit_length + 7) / 8)
        × (ctx ≡ record {
          nb_rounds = nb_rounds;
          is_enc = is_enc;
          byte_length = (bit_length + 7) / 8;
          nb_left = (bit_length + 7) / 8 / 2;
          nb_right = (bit_length + 7) / 8 - (bit_length + 7) / 8 / 2;
          mask_last_byte = mask_at (bit_length % 8);
          tweaks = replicate 16 0;
        })
  unfolding ffx_setup_crypto
  setup_fields has_cipher is_enc nb_rounds bit_length ctx h = ground arith

  -- A block that is encrypted and then decrypted, by contexts that are set up for the two directions
  -- with the same even number of rounds, bit length, key and tweak, comes back, whatever the cipher
  -- under it makes of an iv: bytes. The block has the context's length.
  pub ffx_transform-ffx_setup_crypto :
      (nb_rounds bit_length : ℕ) (enc dec : FfxContext) (iv input : List ℕ)
      → ffx_setup_crypto true true nb_rounds bit_length ≡ ok enc
      → ffx_setup_crypto true false nb_rounds bit_length ≡ ok dec
      → nb_rounds % 2 ≡ 0
      → length input ≡ (bit_length + 7) / 8
      → All IsByte input
      → ffx_transform confuse (ffx_init dec iv) (ffx_transform confuse (ffx_init enc iv) input)
        ≡ input
  unfolding ffx_init
  ffx_transform-ffx_setup_crypto nb_rounds bit_length enc dec iv input he hd even size bytes =
      let (two, e) = setup_fields true true nb_rounds bit_length enc he in
      let (_, d) = setup_fields true false nb_rounds bit_length dec hd in
      rw (e, d)
        (transform_back (bit_length % 8) _ input (omega arith) refl refl even (omega arith) size
          bytes)

  last_byte-append : (xs ys : List ℕ) → 0 < length ys → last_byte (xs ++ ys) ≡ last_byte ys
  unfolding last_byte
  last_byte-append [] ys h = refl
  last_byte-append (x ∷ []) [] h = absurd (omega arith)
  last_byte-append (x ∷ []) (y ∷ ys) h = refl
  last_byte-append (x ∷ x' ∷ xs) ys h = last_byte-append (x' ∷ xs) ys h

  last_byte-drop : (n : ℕ) (xs : List ℕ) → n < length xs → last_byte (drop n xs) ≡ last_byte xs
  unfolding last_byte
  last_byte-drop zero xs h = refl
  last_byte-drop (suc n) [] h = absurd (omega arith)
  last_byte-drop (suc n) (x ∷ []) h = absurd (omega arith)
  last_byte-drop (suc n) (x ∷ y ∷ xs) h = last_byte-drop n (y ∷ xs) (omega arith)

  low_bits_kept :
      (k : ℕ) (ctx : FfxContext) (input : List ℕ)
      → k < 8
      → ctx.mask_last_byte ≡ mask_at k
      → ctx.is_enc ≡ true
      → ctx.nb_left < ctx.byte_length
      → length input ≡ ctx.byte_length
      → All IsByte input
      → last_byte (ffx_transform confuse ctx input) % 2 ^ k ≡ last_byte input % 2 ^ k
  unfolding ffx_transform
  low_bits_kept k ctx input hk own_mask enc short size bytes =
      let left : List ℕ = take ctx.nb_left input in
      let right : List ℕ = drop ctx.nb_left input in
      let some_right : 0 < length right = omega (arith, length-drop ctx.nb_left input) in
      let right_bytes : All IsByte right = All-drop IsByte ctx.nb_left input bytes in
      let sizes = parts_length k hk ctx own_mask left right some_right right_bytes in
      let saved : ℕ = last_byte right in
      let mid : ℕ = last_byte (encrypted ctx left right).1 in
      let is_masked : IsMasked k mid = middle k hk ctx own_mask left right some_right right_bytes in
      rw (eq→== (length input) ctx.byte_length size, transform_halves-enc ctx left right enc)
        (ap (λ (b : ℕ). b % 2 ^ k)
            (last_byte-append (encrypted ctx left right).0 (joined ctx left right)
                (omega (arith, sizes.1))
              ∙ last_byte-at_last (restore_last ctx.mask_last_byte saved)
                  (encrypted ctx left right).1
                  (joined_length k hk ctx own_mask left right some_right right_bytes))
          ∙ (low_of_restored k ctx.mask_last_byte mid saved hk own_mask is_masked
                (IsByte-last_byte right right_bytes)
              ∙ ap (λ (b : ℕ). b % 2 ^ k) (last_byte-drop ctx.nb_left input (omega arith))))

  -- Encryption of a block whose bit length is `r` modulo 8 leaves the `r` lowest bits of its last
  -- byte as they are, whatever the cipher under it makes of an iv: bytes. The block has the
  -- context's length.
  pub ffx_transform_keeps_low_bits :
      (nb_rounds bit_length : ℕ) (enc : FfxContext) (iv input : List ℕ)
      → ffx_setup_crypto true true nb_rounds bit_length ≡ ok enc
      → length input ≡ (bit_length + 7) / 8
      → All IsByte input
      → last_byte (ffx_transform confuse (ffx_init enc iv) input) % 2 ^ (bit_length % 8)
        ≡ last_byte input % 2 ^ (bit_length % 8)
  unfolding ffx_init
  ffx_transform_keeps_low_bits nb_rounds bit_length enc iv input he size bytes =
      let (two, e) = setup_fields true true nb_rounds bit_length enc he in
      rw e (low_bits_kept (bit_length % 8) _ input (omega arith) refl refl (omega arith) size bytes)
