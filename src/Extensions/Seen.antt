-- ===== src/Extensions/Seen.antt =====
-- The bitmap along the loop over the extensions: what was seen, and what is forbidden.
use picotls.Prelude.{
  ℕ, ◌<◌, ◌≡◌, refl, sym, ap, ◌∙◌, inl, inr, Bool, true, false, not, ◌&&◌, ◌||◌, List, [], ◌∷◌, ltb,
  ◌==◌, if◌then◌else◌, ltb→lt, ==→eq, Bool-cases, All, Result, ok, ◌>>◌, guard,
}
use mathlib.Core.Path.{subst}
use picotls.Extensions.{
  Ext, extension_bitmap_is_set, extension_bitmap_set, is_allowed, ext_table, forbid,
}
use picotls.Extensions.Bitmap.{
  IsBitmap, extension_bitmap_set-IsBitmap, is_set-extension_bitmap_set, is_set-kept,
}

-- No tracked type stands in front of the same type.
abbrev pub Distinct : List ℕ → Type 0
Distinct [] = Unit {0}
Distinct (t ∷ log) = ((ltb t 64 && is_allowed t log) ≡ false) × Distinct log

-- Where the table has the type, the message is among those that may have it.
abbrev pub is_permitted : ℕ → ℕ → List Ext → Bool
is_permitted hstype t [] = true
is_permitted hstype t (e ∷ table) =
    (not (e.extid == t) || is_allowed hstype e.allowed) && is_permitted hstype t table

abbrev pub ArePermitted : ℕ → List ℕ → Type 0
ArePermitted hstype log = All (λ t. is_permitted hstype t ext_table ≡ true) log

-- The bitmap knows what was seen and what is forbidden.
abbrev pub Seen : List ℕ → List ℕ → Type 0
Seen bits log = All (λ t. (not (ltb t 64) || extension_bitmap_is_set bits t) ≡ true) log

abbrev pub Forbids : ℕ → List ℕ → List Ext → Type 0
Forbids hstype bits table =
    All (λ e. (is_allowed hstype e.allowed || extension_bitmap_is_set bits e.extid) ≡ true) table

or_mono : (a b c : Bool) → (b ≡ true → c ≡ true) → (a || b) ≡ true → (a || c) ≡ true
or_mono true b c k h = refl
or_mono false b c k h = k h

pub Seen-kept :
    (bits log : List ℕ) (i : ℕ)
    → IsBitmap bits
    → Seen bits log
    → Seen (extension_bitmap_set bits i) log
Seen-kept bits [] i b h = tt
Seen-kept bits (t ∷ log) i b h = (
  or_mono (not (ltb t 64)) (extension_bitmap_is_set bits t)
      (extension_bitmap_is_set (extension_bitmap_set bits i) t) (is_set-kept bits i t b) h.0,
  Seen-kept bits log i b h.1,
)

pub Forbids-kept :
    (hstype : ℕ) (bits : List ℕ) (table : List Ext) (i : ℕ)
    → IsBitmap bits
    → Forbids hstype bits table
    → Forbids hstype (extension_bitmap_set bits i) table
Forbids-kept hstype bits [] i b h = tt
Forbids-kept hstype bits (e ∷ table) i b h = (
  or_mono (is_allowed hstype e.allowed) (extension_bitmap_is_set bits e.extid)
      (extension_bitmap_is_set (extension_bitmap_set bits i) e.extid) (is_set-kept bits i e.extid b)
      h.0,
  Forbids-kept hstype bits table i b h.1,
)

pub seen_now :
    (bits : List ℕ) (t : ℕ)
    → IsBitmap bits
    → (not (ltb t 64) || extension_bitmap_is_set (extension_bitmap_set bits t) t) ≡ true
seen_now bits t b = elim (Bool-cases (ltb t 64)) [
  | inl small ↦ rw (small, is_set-extension_bitmap_set bits t b (ltb→lt t 64 small)) refl
  | inr large ↦ rw large refl
]

and_false : (b : Bool) → (b && false) ≡ false
and_false true = refl
and_false false = refl

only_left : (a b : Bool) → (not a || b) ≡ true → b ≡ false → a ≡ false
only_left true b h e = cc
only_left false b h e = refl

or_left : (a b : Bool) → (a || b) ≡ true → b ≡ false → a ≡ true
or_left true b h e = refl
or_left false b h e = cc

pub not-true : (b : Bool) → not b ≡ true → b ≡ false
not-true true h = cc
not-true false h = refl

pub guard-ok {ℓ} :
    {B : Type ℓ} (b : Bool) (code : ℕ) (rest : Result B) {result : B}
    → (guard b code >> rest) ≡ ok result
    → (b ≡ true) × (rest ≡ ok result)
guard-ok true code rest h = (refl, h)
guard-ok false code rest h = cc

-- A type that is not set is new among those seen, and permitted.
pub not_among :
    (bits log : List ℕ) (t : ℕ)
    → extension_bitmap_is_set bits t ≡ false
    → Seen bits log
    → (ltb t 64 && is_allowed t log) ≡ false
unfolding is_allowed
not_among bits [] t new h = and_false (ltb t 64)
not_among bits (u ∷ log) t new h = elim (Bool-cases (t == u)) [
  | inl same ↦
      let untracked : ltb t 64 ≡ false =
        only_left (ltb t 64) (extension_bitmap_is_set bits t)
          (subst (λ (n : ℕ). (not (ltb n 64) || extension_bitmap_is_set bits n) ≡ true)
            (sym (==→eq t u same)) h.0)
          new in
      rw untracked refl
  | inr other ↦ rw other (not_among bits log t new h.1)
]

pub permitted_now :
    (hstype : ℕ) (bits : List ℕ) (t : ℕ) (table : List Ext)
    → extension_bitmap_is_set bits t ≡ false
    → Forbids hstype bits table
    → is_permitted hstype t table ≡ true
permitted_now hstype bits t [] new h = refl
permitted_now hstype bits t (e ∷ table) new h = elim (Bool-cases (e.extid == t)) [
  | inl same ↦
      let clear : extension_bitmap_is_set bits e.extid ≡ false =
        ap (extension_bitmap_is_set bits) (==→eq e.extid t same) ∙ new in
      let allows : is_allowed hstype e.allowed ≡ true =
        or_left (is_allowed hstype e.allowed) (extension_bitmap_is_set bits e.extid) h.0 clear in
      rw (same, allows) (permitted_now hstype bits t table new h.1)
  | inr other ↦ rw other (permitted_now hstype bits t table new h.1)
]

-- The bitmap that a message starts with.
pub forbid-IsBitmap :
    (hstype : ℕ) (table : List Ext) (bits : List ℕ)
    → IsBitmap bits
    → IsBitmap (forbid hstype table bits)
unfolding forbid
forbid-IsBitmap hstype [] bits b = b
forbid-IsBitmap hstype (e ∷ table) bits b =
    forbid-IsBitmap hstype table
      (if is_allowed hstype e.allowed then bits else extension_bitmap_set bits e.extid)
      (go (is_allowed hstype e.allowed))
  where
    go : (c : Bool) → IsBitmap (if c then bits else extension_bitmap_set bits e.extid)
    go true = b
    go false = extension_bitmap_set-IsBitmap bits e.extid b

forbid_kept :
    (hstype : ℕ) (table : List Ext) (bits : List ℕ) (j : ℕ)
    → IsBitmap bits
    → extension_bitmap_is_set bits j ≡ true
    → extension_bitmap_is_set (forbid hstype table bits) j ≡ true
unfolding forbid
forbid_kept hstype [] bits j b h = h
forbid_kept hstype (e ∷ table) bits j b h = elim (Bool-cases (is_allowed hstype e.allowed)) [
  | inl may ↦ rw may (forbid_kept hstype table bits j b h)
  | inr must_not ↦ rw must_not (
      forbid_kept hstype table (extension_bitmap_set bits e.extid) j
        (extension_bitmap_set-IsBitmap bits e.extid b) (is_set-kept bits e.extid j b h))
]

pub forbid-Forbids :
    (hstype : ℕ) (table : List Ext) (bits : List ℕ)
    → IsBitmap bits
    → All (λ (e : Ext). e.extid < 64) table
    → Forbids hstype (forbid hstype table bits) table
unfolding forbid
forbid-Forbids hstype [] bits b small = tt
forbid-Forbids hstype (e ∷ table) bits b small =
    go (is_allowed hstype e.allowed) refl (λ bits' b'. forbid-Forbids hstype table bits' b' small.1)
  where
    marked : List ℕ
    marked = extension_bitmap_set bits e.extid

    go :
        (c : Bool)
        → is_allowed hstype e.allowed ≡ c
        → ((bits' : List ℕ) → IsBitmap bits' → Forbids hstype (forbid hstype table bits') table)
        → Forbids hstype (forbid hstype table (if c then bits else marked)) (e ∷ table)
    go true h later = (rw h refl, later bits b)
    go false h later =
        let b' : IsBitmap marked = extension_bitmap_set-IsBitmap bits e.extid b in
        (
          rw h (
              forbid_kept hstype table marked e.extid b'
                (is_set-extension_bitmap_set bits e.extid b small.0)),
          later marked b',
        )
