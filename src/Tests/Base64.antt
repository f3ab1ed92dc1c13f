-- ===== src/Tests/Base64.antt =====
-- Base64 at concrete inputs.
use picotls.Prelude.{ℕ, ◌≡◌, refl, Bool, true, [], ◌∷◌, ◌++◌, arith}
use picotls.Base64.{letter, encode_cells, base64_decode, base64_decode_init}
use picotls.Base64.RoundTrip.{IsDecoded, base64_decode-encode_cells, base64_decode_ignores_rest}

abbrev always : ℕ → ℕ → Bool
always off delta = true

foob :
    encode_cells (b'f' ∷ b'o' ∷ b'o' ∷ b'b' ∷ [])
    ≡ b'Z' ∷ b'm' ∷ b'9' ∷ b'v' ∷ b'Y' ∷ b'g' ∷ b'=' ∷ b'=' ∷ []
unfolding encode_cells letter
foob = refl

base64_decode-encode_cells_example :
    IsDecoded
      (1 ∷ [])
      (102 ∷ 111 ∷ 111 ∷ 98 ∷ [])
      (base64_decode always (encode_cells (102 ∷ 111 ∷ 111 ∷ 98 ∷ [])) base64_decode_init (1 ∷ []))
base64_decode-encode_cells_example =
    base64_decode-encode_cells always (λ off delta. refl) (1 ∷ []) (102 ∷ 111 ∷ 111 ∷ 98 ∷ [])
      (omega arith)

-- `Zg==!!` is taken for `Zg==`.
base64_decode_ignores_rest_example :
    (base64_decode always (encode_cells (102 ∷ []) ++ b'!' ∷ b'!' ∷ []) base64_decode_init []
      ≡ base64_decode always (encode_cells (102 ∷ [])) base64_decode_init [])
    × IsDecoded []
        (102 ∷ [])
        (base64_decode always (encode_cells (102 ∷ []) ++ b'!' ∷ b'!' ∷ []) base64_decode_init [])
base64_decode_ignores_rest_example =
    base64_decode_ignores_rest always (λ off delta. refl) [] (102 ∷ []) (b'!' ∷ b'!' ∷ [])
      (omega arith) (omega arith)
