-- ===== src/Wire/Blocks.antt =====
-- A length-prefixed block is opened where it was pushed, and only there.
use picotls.Prelude.{
  ℕ, ◌+◌, ◌^◌, ◌≤◌, ◌<◌, ◌≡◌, refl, sym, ap, ◌∙◌, List, [], ◌∷◌, ◌++◌, append_assoc, append-nil,
  length, length-append, take, drop, inl, inr, take-append_length, drop-append_length, ok, err,
  Result, arith, le→ltb, leb, ◌==◌, ◌>>=◌, >>=-ok, Bool-cases, length-drop, leb→le, true, false,
  length-take,
}
use picotls.Wire.{
  Capacity, bytes, quic, low_bytes, block_prefix, push_block, block_size, decode_open_block,
  close_block, read_block, take_all, decode_block, uint64_max,
}
use picotls.Wire.Integers.{length-low_bytes, read_bytes-low_bytes, decode_quicint-encode_quicint}
use native.Mathlib.Nat.{mod-eq_of_lt}

-- The sizes that a length prefix can carry: `_block_size` is a size_t of 64 bits.
abbrev pub Fits : Capacity → ℕ → Type 0
Fits (bytes k) size = (size < 256 ^ k) × (256 ^ k ≤ 2 ^ 64)
Fits quic size = size < 2 ^ 62

block_size-block_prefix :
    (cap : Capacity) (size : ℕ) (rest : List ℕ)
    → Fits cap size
    → block_size cap (block_prefix cap size ++ rest) ≡ ok (size, rest)
unfolding block_size block_prefix
block_size-block_prefix (bytes k) size rest (lt, wide) =
    rw
      (le→ltb (length (low_bytes k size ++ rest)) k
        (omega (arith, length-append (low_bytes k size) rest, length-low_bytes k size)))
      (ap ok (
        read_bytes-low_bytes k 0 size rest (omega arith)
        ∙ ap (λ t. (t, rest)) (omega (arith, mod-eq_of_lt lt))))
block_size-block_prefix quic size rest lt =
    rw (decode_quicint-encode_quicint size rest lt) (rw (not_max size lt) refl)
  where
    not_max : (n : ℕ) → n < 2 ^ 62 → (n == uint64_max) ≡ false
    not_max n h = ground arith

-- The code of a block is run on exactly the body that was pushed.
pub decode_open_block-body {ℓ} :
    {A : Type ℓ} (cap : Capacity) (code : List ℕ → Result (A × List ℕ)) (body rest : List ℕ) (a : A)
    → Fits cap (length body)
    → code body ≡ ok (a, [])
    → decode_open_block cap code (push_block cap body ++ rest) ≡ ok (a, rest)
unfolding decode_open_block read_block push_block close_block
decode_open_block-body cap code body rest a fits runs =
    rw (append_assoc (block_prefix cap (length body)) body rest) (
      rw (block_size-block_prefix cap (length body) (body ++ rest) fits) (
        rw (enough (length body) (length (body ++ rest)) (omega (arith, length-append body rest)))
          (rw (take-append_length body rest, drop-append_length body rest) (rw runs refl))))
  where
    enough : (m n : ℕ) → m ≤ n → leb m n ≡ true
    enough m n h = ground arith

-- The same where the block is the last thing.
pub decode_block-body {ℓ} :
    {A : Type ℓ} (cap : Capacity) (code : List ℕ → Result (A × List ℕ)) (body : List ℕ) (a : A)
    → Fits cap (length body)
    → code body ≡ ok (a, [])
    → (decode_open_block cap code (push_block cap body) ≡ ok (a, []))
      × (decode_block cap code (push_block cap body) ≡ ok (a, []))
unfolding decode_block
decode_block-body cap code body a fits runs =
    let opened =
      ap (decode_open_block cap code) (sym (append-nil (push_block cap body)))
      ∙ decode_open_block-body cap code body [] a fits runs in
    (opened, rw opened refl)

-- A block whose size fits its prefix is opened on exactly its body, and the block's code that
-- takes all of it gets the body back; what follows the block is left.
pub decode_open_block-push_block :
    (cap : Capacity) (body rest : List ℕ)
    → Fits cap (length body)
    → decode_open_block cap take_all (push_block cap body ++ rest) ≡ ok (body, rest)
decode_open_block-push_block cap body rest fits =
    decode_open_block-body cap take_all body rest body fits refl

-- What an accepted block looks like, for the code `body` and the end `left`.
abbrev pub Inside {ℓ} :
    {A : Type ℓ} → (List ℕ → Result (A × List ℕ)) → A → List ℕ → ℕ → List ℕ → Type ℓ
Inside body a left size rest =
    (size + length left ≡ length rest)
    × (length (take size rest) ≡ size)
    × (body (take size rest) ≡ ok (a, []))

close_block-eq-ok {ℓ} :
    {A : Type ℓ} (r : Result (A × List ℕ)) (rest : List ℕ) (a : A) (left : List ℕ)
    → (r >>= close_block rest) ≡ ok (a, left)
    → (r ≡ ok (a, [])) × (left ≡ rest)
unfolding close_block
close_block-eq-ok (err e) rest a left h = cc
close_block-eq-ok (ok (b, [])) rest a left h = ground arith
close_block-eq-ok (ok (b, x ∷ xs)) rest a left h = ground arith

read_block-Inside {ℓ} :
    {A : Type ℓ} (body : List ℕ → Result (A × List ℕ)) (size : ℕ) (rest : List ℕ) (a : A)
    (left : List ℕ)
    → read_block body (size, rest) ≡ ok (a, left)
    → Inside body a left size rest
unfolding read_block
read_block-Inside body size rest a left h = elim (Bool-cases (leb size (length rest))) [
  | inr short ↦ cc (rw short at h)
  | inl room ↦
      let p = close_block-eq-ok (body (take size rest)) (drop size rest) a left (rw room at h) in
      let fits : size ≤ length rest = leb→le size (length rest) room in
      (
        omega (arith, ap length p.1, length-drop size rest),
        omega (arith, length-take size rest),
        p.0,
      )
]

-- Whatever the code of a block does, an accepted block is wholly inside its input: the size that
-- its prefix states is there, the code is run on exactly that many bytes and uses them all up.
pub decode_open_block-Inside {ℓ} :
    {A : Type ℓ} (cap : Capacity) (body : List ℕ → Result (A × List ℕ)) (src : List ℕ) (a : A)
    (left : List ℕ)
    → decode_open_block cap body src ≡ ok (a, left)
    → (size : ℕ) × (rest : List ℕ) × (block_size cap src ≡ ok (size, rest))
      × Inside body a left size rest
unfolding decode_open_block
decode_open_block-Inside cap body src a left h =
    let p = >>=-ok (read_block body) (block_size cap src) h in
    (p.0.0, p.0.1, p.2, read_block-Inside body p.0.0 p.0.1 a left p.1)
