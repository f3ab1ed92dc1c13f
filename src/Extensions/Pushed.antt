-- ===== src/Extensions/Pushed.antt =====
-- Extensions that were pushed are read back, one round of the loop for each.
use picotls.Prelude.{
  ℕ, zero, suc, ◌^◌, ◌≤◌, ◌<◌, ◌≡◌, refl, ap, ◌∙◌, false, List, [], ◌∷◌, ◌++◌, length,
  length-append, Result, ok, arith,
}
use picotls.Wire.{bytes, push16, push_block}
use picotls.Wire.Integers.{decode-push}
use picotls.Wire.Blocks.{decode_open_block-body, decode_block-body}
use picotls.Extensions.{
  extension_bitmap_is_set, extension_bitmap_set, init_extension_bitmap, buffer_push_extension,
  extension_rounds, decode_open_extensions, decode_extensions,
}

module _ {ℓ} {A : Type ℓ} (block : A → ℕ → List ℕ → Result (A × List ℕ)) where
  pub extension_rounds-buffer_push_extension :
      (n : ℕ) (bits : List ℕ) (a a' : A) (t : ℕ) (body rest : List ℕ)
      → t < 2 ^ 16
      → length body < 2 ^ 16
      → extension_bitmap_is_set bits t ≡ false
      → block a t body ≡ ok (a', [])
      → extension_rounds block (suc n) bits a (buffer_push_extension t body ++ rest)
        ≡ extension_rounds block n (extension_bitmap_set bits t) a' rest
  unfolding extension_rounds buffer_push_extension push16
  extension_rounds-buffer_push_extension n bits a a' t body rest ht hb new runs =
      rw ((decode-push t (push_block (bytes 2) body ++ rest)).0 ht) (
        rw new (
          rw (decode_open_block-body (bytes 2) (block a t) body rest a' (hb, omega arith) runs)
            refl))

  pub decode_extensions-push_block :
      (hstype : ℕ) (a a' : A) (exts : List ℕ)
      → length exts < 2 ^ 16
      → extension_rounds block (length exts) (init_extension_bitmap hstype) a exts ≡ ok (a', [])
      → decode_extensions block hstype a (push_block (bytes 2) exts) ≡ ok a'
  unfolding decode_extensions decode_open_extensions
  decode_extensions-push_block hstype a a' exts h runs =
      rw
        (decode_block-body (bytes 2)
          (λ body. extension_rounds block (length body) (init_extension_bitmap hstype) a body) exts
          a' (h, omega arith) runs).0
        refl

-- Extensions by type and body, and their bytes.
abbrev pub push_extensions : List (ℕ × List ℕ) → List ℕ
push_extensions [] = []
push_extensions (e ∷ es) = buffer_push_extension e.0 e.1 ++ push_extensions es

buffer_push_extension_lt : (t : ℕ) (body : List ℕ) → 0 < length (buffer_push_extension t body)
unfolding buffer_push_extension push16
buffer_push_extension_lt t body = omega arith

length-push_extensions : (es : List (ℕ × List ℕ)) → length es ≤ length (push_extensions es)
length-push_extensions [] = omega arith
length-push_extensions (e ∷ es) = omega (
  arith,
  length-append (buffer_push_extension e.0 e.1) (push_extensions es),
  buffer_push_extension_lt e.0 e.1,
  length-push_extensions es,
)

module _ {ℓ} {A : Type ℓ} (block : A → ℕ → List ℕ → Result (A × List ℕ)) where
  -- Each extension fits, is not forbidden or there before, and its code takes the whole body.
  abbrev pub Reads : List ℕ → A → List (ℕ × List ℕ) → A → Type ℓ
  Reads bits a [] a' = a ≡ a'
  Reads bits a (e ∷ es) a' =
      (next : A) × (block a e.0 e.1 ≡ ok (next, []))
      × (e.0 < 2 ^ 16)
      × (length e.1 < 2 ^ 16)
      × (extension_bitmap_is_set bits e.0 ≡ false)
      × Reads (extension_bitmap_set bits e.0) next es a'

  extension_rounds-push_extensions :
      (n : ℕ) (bits : List ℕ) (a a' : A) (es : List (ℕ × List ℕ))
      → length es ≤ n
      → Reads bits a es a'
      → extension_rounds block n bits a (push_extensions es) ≡ ok (a', [])
  unfolding extension_rounds
  extension_rounds-push_extensions zero bits a a' [] h r = ap (λ x. ok (x, [])) r
  extension_rounds-push_extensions (suc n) bits a a' [] h r = ap (λ x. ok (x, [])) r
  extension_rounds-push_extensions zero bits a a' (e ∷ es) h r = absurd (omega arith)
  extension_rounds-push_extensions (suc n) bits a a' (e ∷ es) h
        (next, runs, small, fits, new, later) =
      extension_rounds-buffer_push_extension block n bits a next e.0 e.1 (push_extensions es) small
        fits new runs
      ∙ extension_rounds-push_extensions n (extension_bitmap_set bits e.0) next a' es
          (omega (arith, h)) later

  pub decode_extensions-push_extensions :
      (hstype : ℕ) (a a' : A) (es : List (ℕ × List ℕ))
      → length (push_extensions es) < 2 ^ 16
      → Reads (init_extension_bitmap hstype) a es a'
      → decode_extensions block hstype a (push_block (bytes 2) (push_extensions es)) ≡ ok a'
  decode_extensions-push_extensions hstype a a' es h r =
      decode_extensions-push_block block hstype a a' (push_extensions es) h (
        extension_rounds-push_extensions (length (push_extensions es))
          (init_extension_bitmap hstype) a a' es (length-push_extensions es) r)
