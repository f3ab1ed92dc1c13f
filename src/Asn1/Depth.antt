-- ===== src/Asn1/Depth.antt =====
-- The walk over an element ends, and the fuel that the model gives it is no part of the answer.
use picotls.Prelude.{ℕ, ◌≤◌, ◌<◌, ◌≡◌, Option, List}
use picotls.Asn1.{Walk}

-- Two recursive calls with the same answer for elements of up to `n` bytes.
abbrev SamePart : (List ℕ → ℕ → ℕ → Option Walk) → (List ℕ → ℕ → ℕ → Option Walk) → ℕ → Type 0
SamePart part other n =
    (bytes : List ℕ) (m decode_error : ℕ)
    → 0 < m
    → m ≤ n
    → part bytes m decode_error ≡ other bytes m decode_error
