-- ===== src/Prelude/Outcome.antt =====
-- A value, or the non-zero code that a C function returns instead.
use Prim.Native.Nat.{ℕ}
use mathlib.Core.Path.{◌≡◌, refl}
use mathlib.Core.Bool.{Bool, true, false}

pub data Result {ℓ} (A : Type ℓ) : Type ℓ where
  err : (code : ℕ) → Result A
  ok : (value : A) → Result A

-- `if ((ret = f()) != 0) goto Exit;`
infixl 5 ◌>>=◌ ◌>>◌
abbrev pub ◌>>=◌ {ℓ ℓ'} :
    {A : Type ℓ} {B : Type ℓ'} (first : Result A) (rest : A → Result B) → Result B
err code >>= rest = err code
ok value >>= rest = rest value

abbrev pub ◌>>◌ {ℓ} : {B : Type ℓ} (check : Result (Unit {0})) (rest : Result B) → Result B
err code >> rest = err code
ok passed >> rest = rest

abbrev pub guard : (holds : Bool) (code : ℕ) → Result (Unit {0})
guard false code = err code
guard true code = ok tt

-- A chain that succeeds: so did its first part, and the rest on its value.
pub >>=-ok {ℓ ℓ'} :
    {A : Type ℓ} {B : Type ℓ'} (rest : A → Result B) (first : Result A) {result : B}
    → (first >>= rest) ≡ ok result
    → (value : A) × (rest value ≡ ok result) × (first ≡ ok value)
>>=-ok rest (err code) h = cc
>>=-ok rest (ok value) h = (value, h, refl)
