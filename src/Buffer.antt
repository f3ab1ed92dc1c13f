-- ===== src/Buffer.antt =====
-- Growable buffers, lib/picotls.c: `ptls_buffer_reserve` and `ptls_buffer__do_pushv`. A buffer's
-- memory is the list of its bytes up to `off`; `malloc` says whether memory of a size is there.
-- PTLS_MEMORY_DEBUG is off.
pub mod Growth
use picotls.Prelude.{
  ℕ, zero, suc, ◌+◌, ◌*◌, ◌%◌, ◌^◌, Bool, true, Option, none, some, List, [], ◌∷◌, ◌++◌, map, ltb,
  if◌then◌else◌, length, Result, ok, err, ◌>>=◌,
}
use mathlib.Core.Option
use picotls.Code.{error_no_memory}

-- `ptls_buffer_t`; `base` is `none` while the pointer is NULL.
pub record Buffer : Type 0 where
  pub base : Option (List ℕ)
  pub capacity : ℕ
  pub off : ℕ
  pub is_allocated : Bool

-- `off + delta`, in a size_t
unfoldable pub wanted : Buffer → ℕ → ℕ
wanted buf delta = (buf.off + delta) % 2 ^ 64

-- The loop that doubles the capacity; `none` is an end of the model's fuel.
unfoldable pub double_capacity : ℕ → ℕ → ℕ → Option ℕ
double_capacity zero want new_capacity = none
double_capacity (suc rounds) want new_capacity =
    let rest = double_capacity rounds want (new_capacity * 2 % 2 ^ 64) in
    if ltb new_capacity want then rest else some new_capacity

-- `memcpy(buf->base + buf->off, src, len)`
unfoldable pub append_bytes : List ℕ → Buffer → Buffer
append_bytes src buf = record buf {
  base = Option.map (λ bytes. bytes ++ src) buf.base;
  off = buf.off + length src;
}

module _ (malloc : ℕ → Bool) where
  -- The bytes are copied, and the old memory released.
  unfoldable pub allocate : Buffer → ℕ → Result Buffer
  allocate buf new_capacity =
      if malloc new_capacity
      then ok (record buf { capacity = new_capacity; is_allocated = true })
      else err error_no_memory

  -- From 1024 bytes, 54 rounds reach half of what a size_t holds.
  unfoldable pub reserve_held : Buffer → ℕ → Option (Result Buffer)
  reserve_held buf delta =
      let want = wanted buf delta in
      let start = if ltb buf.capacity 1024 then 1024 else buf.capacity in
      if ltb buf.capacity want
      then Option.map (allocate buf) (double_capacity 54 want start)
      else some (ok buf)

  unfoldable pub buffer_reserve : Buffer → ℕ → Option (Result Buffer)
  buffer_reserve buf delta = elim buf.base [
    | none ↦ some (err error_no_memory)
    | some bytes ↦ reserve_held buf delta
  ]

  unfoldable pub do_pushv : Buffer → List ℕ → Option (Result Buffer)
  do_pushv buf [] = some (ok buf)
  do_pushv buf (b ∷ src) =
      Option.map (λ r. r >>= (λ held. ok (append_bytes (b ∷ src) held)))
        (buffer_reserve buf (length (b ∷ src)))
