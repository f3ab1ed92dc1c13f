-- ===== src/Pem.antt =====
-- The PEM reader, lib/pembase64.c: `ptls_compare_separator_line`, `ptls_get_pem_object`,
-- `ptls_load_pem_objects` and `ptls_load_certificates`. A file is the list of the lines that `fgets`
-- gives for it, none where it cannot be opened; `grow` is the memory of the decoder's buffer.
pub mod Objects
use picotls.Prelude.{
  ℕ, zero, suc, ◌+◌, ◌-◌, Bool, true, false, not, ◌&&◌, ◌||◌, Option, none, some, List, [], ◌∷◌,
  ◌++◌, ltb, ◌==◌, if◌then◌else◌, length,
}
use picotls.Code.{error_no_memory, error_incorrect_base64, error_pem_label_not_found}
use picotls.Base64.{
  Status, decode_done, decode_in_progress, DecodeState, Decoded, base64_decode_init, base64_decode,
  in_progress,
}

-- "-----"
abbrev pub dashes : List ℕ
dashes = 45 ∷ 45 ∷ 45 ∷ 45 ∷ 45 ∷ []

-- "BEGIN", "END"
abbrev pub word_begin : List ℕ
word_begin = 66 ∷ 69 ∷ 71 ∷ 73 ∷ 78 ∷ []

abbrev pub word_end : List ℕ
word_end = 69 ∷ 78 ∷ 68 ∷ []

-- "CERTIFICATE"
abbrev pub label_certificate : List ℕ
label_certificate = 67 ∷ 69 ∷ 82 ∷ 84 ∷ 73 ∷ 70 ∷ 73 ∷ 67 ∷ 65 ∷ 84 ∷ 69 ∷ []

-- `strncmp(line, text, strlen(text)) == 0`, with what follows.
unfoldable pub skip_text : List ℕ → Option (List ℕ) → Option (List ℕ)
skip_text text none = none
skip_text [] (some line) = some line
skip_text (c ∷ text) (some []) = none
skip_text (c ∷ text) (some (d ∷ line)) = if d == c then skip_text text (some line) else none

abbrev pub is_some {ℓ} : {A : Type ℓ} → Option A → Bool
is_some none = false
is_some (some a) = true

-- Whether `ptls_compare_separator_line` returns 0.
unfoldable pub compare_separator_line : List ℕ → List ℕ → List ℕ → Bool
unfolding skip_text
compare_separator_line line begin_or_end label = is_some (
    skip_text dashes (
      skip_text label
        (skip_text (32 ∷ []) (skip_text begin_or_end (skip_text dashes (some line))))))

-- The lines behind the first separator; none when there is none.
unfoldable pub find_begin : List ℕ → List (List ℕ) → Option (List (List ℕ))
unfolding compare_separator_line
find_begin label [] = none
find_begin label (line ∷ lines) =
    if compare_separator_line line word_begin label then some lines else find_begin label lines

-- The return value, the buffer, and the lines that the file still has.
pub record PemObject : Type 0 where
  pub ret : ℕ
  pub buf : List ℕ
  pub lines : List (List ℕ)

-- `status == DONE || (status == IN_PROGRESS && nbc == 0)`
unfoldable pub is_complete : DecodeState → Bool
is_complete st = elim st.status [
  | decode_done ↦ true
  | decode_in_progress ↦ st.nbc == 0
  | _ ↦ false
]

module _ (grow : ℕ → ℕ → Bool) where
  -- "Get the data in the buffer", with `ret` 0 so far.
  unfoldable pub get_data : List ℕ → DecodeState → List ℕ → List (List ℕ) → PemObject
  unfolding is_complete
  get_data label st buf [] = record { ret = 0; buf = buf; lines = [] }
  get_data label st buf (line ∷ lines) =
      let d : Decoded = base64_decode grow line st buf in
      let later = get_data label d.state d.buf lines in
      if compare_separator_line line word_end label
      then record {
        ret = if is_complete st then 0 else error_incorrect_base64;
        buf = buf;
        lines = lines;
      }
      else if d.ret == 0
      then later
      else record { ret = d.ret; buf = d.buf; lines = lines }

  unfoldable pub get_pem_object : List (List ℕ) → List ℕ → List ℕ → PemObject
  unfolding get_data find_begin
  get_pem_object file label buf = elim (find_begin label file) [
    | none ↦ record { ret = error_pem_label_not_found; buf = buf; lines = [] }
    | some lines ↦ get_data label base64_decode_init buf lines
  ]

  -- The loop: `list` has the objects so far. A round takes a line at least when it succeeds, so one
  -- round more than there are lines is enough; an object without a byte is not kept.
  unfoldable pub load_rounds : ℕ → List (List ℕ) → List ℕ → ℕ → List (List ℕ) → ℕ × List (List ℕ)
  unfolding get_pem_object
  load_rounds zero file label list_max list = (0, list)
  load_rounds (suc rounds) file label list_max list =
      let o = get_pem_object file label [] in
      let kept = if length o.buf == 0 then list else list ++ o.buf ∷ [] in
      let later = load_rounds rounds o.lines label list_max kept in
      if ltb (length list) list_max then if o.ret == 0 then later else (o.ret, list) else (0, list)

  -- The return value, and the objects.
  unfoldable pub load_pem_objects : Option (List (List ℕ)) → List ℕ → ℕ → Option ℕ × List (List ℕ)
  unfolding load_rounds
  load_pem_objects none label list_max = (none, [])
  load_pem_objects (some file) label list_max =
      let (ret, list) = load_rounds (suc (length file)) file label list_max [] in
      (some (if ret == error_pem_label_not_found && not (length list == 0) then 0 else ret), list)

  abbrev pub max_certs_in_context : ℕ
  max_certs_in_context = 16

  -- `has_memory` says whether malloc returns the list; it is none for NULL.
  unfoldable pub load_certificates :
      Bool → Option (List (List ℕ)) → Option ℕ × Option (List (List ℕ))
  unfolding load_pem_objects
  load_certificates has_memory file =
      let (ret, list) = load_pem_objects file label_certificate max_certs_in_context in
      if has_memory then (ret, some list) else (some error_no_memory, none)
