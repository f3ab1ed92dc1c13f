-- ===== src/Tests/Pem.antt =====
-- A PEM object at a concrete input: four letters and three more, which are no group.
use picotls.Prelude.{ℕ, ◌≡◌, refl, Bool, true, List, [], ◌∷◌, ◌++◌}
use picotls.Code.{error_incorrect_base64}
use picotls.Base64.{
  base64_values, char_value, skip_initial, skip_final, skip_trailing, octets, convert, no_letter,
  a_letter, turn, decode_loop, base64_decode, base64_decode_init,
}
use picotls.Pem.{dashes, word_begin, word_end, skip_text, compare_separator_line, get_pem_object}
use picotls.Pem.Objects.{AreData, get_pem_object-decode_lines}

abbrev always : ℕ → ℕ → Bool
always off delta = true

abbrev label : List ℕ
label = b'A' ∷ []

abbrev separator : List ℕ → List ℕ
separator word = dashes ++ (word ++ (32 ∷ (label ++ (dashes ++ 10 ∷ []))))

abbrev data_line : List ℕ
data_line = b'Q' ∷ b'U' ∷ b'J' ∷ b'D' ∷ b'R' ∷ b'E' ∷ b'U' ∷ 10 ∷ []

begins : compare_separator_line (separator word_begin) word_begin label ≡ true
unfolding compare_separator_line skip_text
begins = refl

ends : compare_separator_line (separator word_end) word_end label ≡ true
unfolding compare_separator_line skip_text
ends = refl

is_data : AreData always label base64_decode_init [] (data_line ∷ [])
unfolding compare_separator_line skip_text base64_decode decode_loop turn a_letter no_letter convert
    octets skip_initial skip_final skip_trailing char_value base64_values
is_data = (refl, refl, tt)

get_pem_object-decode_lines_example :
    (get_pem_object always
        ([] ++ separator word_begin ∷ (data_line ∷ [] ++ separator word_end ∷ []))
        label
        []
      ≡ record { ret = error_incorrect_base64; buf = b'A' ∷ b'B' ∷ b'C' ∷ []; lines = [] })
    × (get_pem_object always ([] ++ separator word_begin ∷ data_line ∷ []) label []
        ≡ record { ret = 0; buf = b'A' ∷ b'B' ∷ b'C' ∷ []; lines = [] })
unfolding base64_decode decode_loop turn a_letter no_letter convert octets skip_initial skip_final
    skip_trailing char_value base64_values
get_pem_object-decode_lines_example =
    get_pem_object-decode_lines always label [] (data_line ∷ []) [] (separator word_begin)
      (separator word_end) [] tt begins ends is_data
