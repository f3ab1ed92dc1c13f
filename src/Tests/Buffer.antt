-- ===== src/Tests/Buffer.antt =====
-- A push that makes a small buffer grow.
use picotls.Prelude.{◌≡◌, refl, true, false, some, [], ◌∷◌, ◌++◌, arith, ok}
use picotls.Buffer.{Buffer, do_pushv}
use picotls.Buffer.Growth.{HasBytes, do_pushv-HasBytes}

abbrev small : Buffer
small = record { base = some (7 ∷ 8 ∷ []); capacity = 3; off = 2; is_allocated = false }

do_pushv-HasBytes_example :
    (buf' : Buffer) × (do_pushv (λ n. true) small (1 ∷ 2 ∷ []) ≡ some (ok buf'))
    × HasBytes ((7 ∷ 8 ∷ []) ++ (1 ∷ 2 ∷ [])) buf'
do_pushv-HasBytes_example =
    do_pushv-HasBytes (λ n. true) (λ n. refl) small (7 ∷ 8 ∷ []) (1 ∷ 2 ∷ [])
      (refl, omega arith, omega arith) (omega arith)
