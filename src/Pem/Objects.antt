-- ===== src/Pem/Objects.antt =====
-- What the reader makes of an object, with and without the line that ends it.
use picotls.Prelude.{
  ℕ, zero, suc, ◌≡◌, refl, ap, ◌∙◌, Bool, true, false, Option, none, some, List, [], ◌∷◌, ◌++◌, All,
  eq→==, if◌then◌else◌, arith,
}
use picotls.Code.{error_incorrect_base64, error_pem_label_not_found}
use picotls.Base64.{
  Status, decode_done, decode_in_progress, decode_failed, DecodeState, Decoded, base64_decode_init,
  base64_decode,
}
use picotls.Pem.{
  PemObject, word_begin, word_end, compare_separator_line, find_begin, is_complete, get_data,
  get_pem_object,
}

-- The result for an object that a line ends, by the decoder's status and the number of letters it
-- holds of an unfinished group.
abbrev pub code_at_end : Status → ℕ → ℕ
code_at_end decode_done held = 0
code_at_end decode_in_progress zero = 0
code_at_end decode_in_progress (suc held) = error_incorrect_base64
code_at_end decode_failed held = error_incorrect_base64

is_complete-code_at_end :
    (status : Status) (held nbo v : ℕ)
    → (if is_complete (record { nbc = held; nbo = nbo; status = status; v = v })
        then 0
        else error_incorrect_base64)
      ≡ code_at_end status held
unfolding is_complete
is_complete-code_at_end decode_done held nbo v = refl
is_complete-code_at_end decode_in_progress zero nbo v = refl
is_complete-code_at_end decode_in_progress (suc held) nbo v = ground arith
is_complete-code_at_end decode_failed held nbo v = refl

module _ (grow : ℕ → ℕ → Bool) (label : List ℕ) where
  -- The decoder's state and buffer behind all of the lines.
  abbrev pub decode_lines : DecodeState → List ℕ → List (List ℕ) → DecodeState × List ℕ
  decode_lines st buf [] = (st, buf)
  decode_lines st buf (line ∷ lines) =
      let d : Decoded = base64_decode grow line st buf in decode_lines d.state d.buf lines

  -- The lines are data that the decoder takes: none ends an object, or is in error.
  abbrev pub AreData : DecodeState → List ℕ → List (List ℕ) → Type 0
  AreData st buf [] = Unit {0}
  AreData st buf (line ∷ lines) =
      let d : Decoded = base64_decode grow line st buf in
      (compare_separator_line line word_end label ≡ false)
      × (d.ret ≡ 0)
      × AreData d.state d.buf lines

  get_data-decode_lines :
      (st : DecodeState) (buf : List ℕ) (body : List (List ℕ))
      → AreData st buf body
      → get_data grow label st buf body
        ≡ record { ret = 0; buf = (decode_lines st buf body).1; lines = [] }
  unfolding get_data
  get_data-decode_lines st buf [] h = refl
  get_data-decode_lines st buf (line ∷ lines) (data_line, fine, later) =
      let d : Decoded = base64_decode grow line st buf in
      rw (data_line, eq→== d.ret 0 fine) (get_data-decode_lines d.state d.buf lines later)

  get_data-end :
      (st : DecodeState) (buf end_line : List ℕ) (body rest : List (List ℕ))
      → AreData st buf body
      → compare_separator_line end_line word_end label ≡ true
      → get_data grow label st buf (body ++ end_line ∷ rest) ≡ record {
        ret = let last = (decode_lines st buf body).0 in code_at_end last.status last.nbc;
        buf = (decode_lines st buf body).1;
        lines = rest;
      }
  unfolding get_data
  get_data-end st buf end_line [] rest h ends =
      rw (ends, is_complete-code_at_end st.status st.nbc st.nbo st.v) refl
  get_data-end st buf end_line (line ∷ lines) rest (data_line, fine, later) ends =
      let d : Decoded = base64_decode grow line st buf in
      rw (data_line, eq→== d.ret 0 fine) (get_data-end d.state d.buf end_line lines rest later ends)

  find_begin-junk :
      (junk : List (List ℕ)) (begin_line : List ℕ) (lines : List (List ℕ))
      → All (λ line. compare_separator_line line word_begin label ≡ false) junk
      → compare_separator_line begin_line word_begin label ≡ true
      → find_begin label (junk ++ begin_line ∷ lines) ≡ some lines
  unfolding find_begin
  find_begin-junk [] begin_line lines h begins = rw begins refl
  find_begin-junk (line ∷ junk) begin_line lines (other, others) begins =
      rw other (find_begin-junk junk begin_line lines others begins)

  -- An object stands behind lines that do not begin one, and a line that does; its lines decode
  -- without an error. When a line ends it, the object is an error unless the decoder is behind the
  -- padding or holds no letter of an unfinished group, and the reader goes on behind that line. When the file ends
  -- first, the object is accepted, wherever the decoder is.
  pub get_pem_object-decode_lines :
      (junk body rest : List (List ℕ)) (begin_line end_line buf : List ℕ)
      → All (λ line. compare_separator_line line word_begin label ≡ false) junk
      → compare_separator_line begin_line word_begin label ≡ true
      → compare_separator_line end_line word_end label ≡ true
      → AreData base64_decode_init buf body
      → (get_pem_object grow (junk ++ begin_line ∷ (body ++ end_line ∷ rest)) label buf ≡ record {
        ret =
            let last = (decode_lines base64_decode_init buf body).0 in
            code_at_end last.status last.nbc;
        buf = (decode_lines base64_decode_init buf body).1;
        lines = rest;
      })
        × (get_pem_object grow (junk ++ begin_line ∷ body) label buf
            ≡ record { ret = 0; buf = (decode_lines base64_decode_init buf body).1; lines = [] })
  unfolding get_pem_object
  get_pem_object-decode_lines junk body rest begin_line end_line buf others begins ends h = (
    ap answer (find_begin-junk junk begin_line (body ++ end_line ∷ rest) others begins)
        ∙ get_data-end base64_decode_init buf end_line body rest h ends,
    ap answer (find_begin-junk junk begin_line body others begins)
        ∙ get_data-decode_lines base64_decode_init buf body h,
  )
    where
      answer : Option (List (List ℕ)) → PemObject
      answer found = elim found [
        | none ↦ record { ret = error_pem_label_not_found; buf = buf; lines = [] }
        | some lines ↦ get_data grow label base64_decode_init buf lines
      ]
