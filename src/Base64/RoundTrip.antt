-- ===== src/Base64/RoundTrip.antt =====
-- What `ptls_base64_encode` writes, `ptls_base64_decode` reads back.
use picotls.Prelude.{
  ℕ, ◌+◌, ◌*◌, ◌/◌, ◌%◌, ◌^◌, ◌<◌, ◌≡◌, refl, sym, ap, ◌∙◌, ◌≢◌, ◌⊎◌, inl, inr, Bool, true, List,
  [], ◌∷◌, ◌++◌, append-nil, append_assoc, arith, length, All,
}
use mathlib.Core.Path.{subst}
use picotls.Wire.{IsByte}
use picotls.Base64.{
  letter, base64_cell, base64_howlong, encode_cells, base64_encode, decode_done, base64_decode_init,
  Decoded, skip_initial, octets, shift_v, decode_loop, base64_decode,
}
use picotls.Base64.Arith.{low_two, low_four, second_sextet, letter-not_blank}
use picotls.Base64.Groups.{two_letters, three_letters, padded_one, padded_two, decode_cell}

-- What a call must leave: no error, the data behind the buffer, and a state at the end of a group.
pub record IsDecoded (buf bytes_in : List ℕ) (d : Decoded) : Type 0 where
  pub no_error : d.ret ≡ 0
  pub contents : d.buf ≡ buf ++ bytes_in
  pub at_end : (d.state.status ≡ decode_done) ⊎ (d.state ≡ base64_decode_init)

octets_one : (d0 v : ℕ) → IsByte d0 → v ≡ d0 * 2 ^ 16 → octets 1 v ≡ d0 ∷ []
unfolding octets
octets_one d0 v h e = ground arith

octets_two :
    (d0 d1 v : ℕ) → IsByte d0 → IsByte d1 → v ≡ d0 * 2 ^ 16 + d1 * 2 ^ 8 → octets 2 v ≡ d0 ∷ d1 ∷ []
unfolding octets
octets_two d0 d1 v h0 h1 e = ground arith

module _ (grow : ℕ → ℕ → Bool) (room : (off delta : ℕ) → grow off delta ≡ true) where
  decode_last_one :
      (d0 : ℕ) (buf text : List ℕ)
      → IsByte d0
      → IsDecoded buf
          (d0 ∷ [])
          (decode_loop grow base64_decode_init buf (encode_cells (d0 ∷ []) ++ text))
  unfolding encode_cells
  decode_last_one d0 buf text h = rw (low_two d0 h) (
      rw
        (two_letters grow room (d0 / 4) (d0 % 4 * 16) buf _ (omega arith) (omega arith)
          ∙ padded_one grow room (d0 / 4 * 64 + d0 % 4 * 16) buf text)
        (record {
          no_error = refl;
          contents =
              ap (λ t. buf ++ t)
                (octets_one d0 (shift_v (d0 / 4 * 64 + d0 % 4 * 16) 12) h (omega arith));
          at_end = inl refl;
        }))

  decode_last_two :
      (d0 d1 : ℕ) (buf text : List ℕ)
      → IsByte d0
      → IsByte d1
      → IsDecoded buf
          (d0 ∷ d1 ∷ [])
          (decode_loop grow base64_decode_init buf (encode_cells (d0 ∷ d1 ∷ []) ++ text))
  unfolding encode_cells
  decode_last_two d0 d1 buf text h0 h1 =
      let v : ℕ = (d0 / 4 * 64 + (d0 % 4 * 16 + d1 / 16)) * 64 + d1 % 16 * 4 in
      rw (second_sextet d0 d1 h0 h1, low_four d1 h1)
        (rw
          (three_letters grow room (d0 / 4) (d0 % 4 * 16 + d1 / 16) (d1 % 16 * 4) buf _
              (omega arith) (omega arith) (omega arith)
            ∙ padded_two grow room v buf text)
          (record {
            no_error = refl;
            contents = ap (λ t. buf ++ t) (octets_two d0 d1 (shift_v v 6) h0 h1 (omega arith));
            at_end = inl refl;
          }))

  decode_first_cell :
      (d0 d1 d2 : ℕ) (buf rest : List ℕ)
      → IsByte d0
      → IsByte d1
      → IsByte d2
      → IsDecoded
          (buf ++ d0 ∷ d1 ∷ d2 ∷ [])
          rest
          (decode_loop grow base64_decode_init (buf ++ d0 ∷ d1 ∷ d2 ∷ []) (encode_cells rest))
      → IsDecoded buf
          (d0 ∷ d1 ∷ d2 ∷ rest)
          (decode_loop grow base64_decode_init buf (encode_cells (d0 ∷ d1 ∷ d2 ∷ rest)))
  unfolding encode_cells
  decode_first_cell d0 d1 d2 buf rest h0 h1 h2 later =
      rw (decode_cell grow room d0 d1 d2 buf (encode_cells rest) h0 h1 h2) (record {
        no_error = later.no_error;
        contents = later.contents ∙ append_assoc buf (d0 ∷ d1 ∷ d2 ∷ []) rest;
        at_end = later.at_end;
      })

  loop-encode_cells :
      (buf bytes_in : List ℕ)
      → All IsByte bytes_in
      → IsDecoded buf bytes_in (decode_loop grow base64_decode_init buf (encode_cells bytes_in))
  loop-encode_cells buf [] h =
      unfold encode_cells decode_loop in
      record { no_error = refl; contents = sym (append-nil buf); at_end = inr refl }
  loop-encode_cells buf (d0 ∷ []) h =
      subst (λ t. IsDecoded buf (d0 ∷ []) (decode_loop grow base64_decode_init buf t))
        (append-nil (encode_cells (d0 ∷ []))) (decode_last_one d0 buf [] h.0)
  loop-encode_cells buf (d0 ∷ d1 ∷ []) h =
      subst (λ t. IsDecoded buf (d0 ∷ d1 ∷ []) (decode_loop grow base64_decode_init buf t))
        (append-nil (encode_cells (d0 ∷ d1 ∷ []))) (decode_last_two d0 d1 buf [] h.0 h.1.0)
  loop-encode_cells buf (d0 ∷ d1 ∷ d2 ∷ rest) h =
      decode_first_cell d0 d1 d2 buf rest h.0 h.1.0 h.1.1.0
        (loop-encode_cells (buf ++ d0 ∷ d1 ∷ d2 ∷ []) rest h.1.1.1)

  skip_initial-letter :
      (x : ℕ) (text : List ℕ) → x < 64 → skip_initial (letter x ∷ text) ≡ letter x ∷ text
  unfolding skip_initial
  skip_initial-letter x text h = rw (letter-not_blank x h) refl

  skip_initial-encode_cells :
      (bytes_in text : List ℕ)
      → All IsByte bytes_in
      → bytes_in ≢ []
      → skip_initial (encode_cells bytes_in ++ text) ≡ encode_cells bytes_in ++ text
  unfolding encode_cells
  skip_initial-encode_cells [] text h ne = absurd (ne refl)
  skip_initial-encode_cells (d0 ∷ []) text h ne = skip_initial-letter (d0 / 4) _ (omega arith)
  skip_initial-encode_cells (d0 ∷ d1 ∷ []) text h ne = skip_initial-letter (d0 / 4) _ (omega arith)
  skip_initial-encode_cells (d0 ∷ d1 ∷ d2 ∷ rest) text h ne =
      skip_initial-letter (d0 / 4) _ (omega arith)

  decode-cells :
      (buf bytes_in text : List ℕ)
      → All IsByte bytes_in
      → bytes_in ≢ []
      → base64_decode grow (encode_cells bytes_in ++ text) base64_decode_init buf
        ≡ decode_loop grow base64_decode_init buf (encode_cells bytes_in ++ text)
  unfolding base64_decode
  decode-cells buf bytes_in text h ne =
      ap (decode_loop grow base64_decode_init buf) (skip_initial-encode_cells bytes_in text h ne)

  -- With memory, decoding the text that encodes some bytes, from the initial state, reports no
  -- error, appends exactly those bytes, and ends where a PEM object may end: at a group's end, or
  -- after the padding.
  pub base64_decode-encode_cells :
      (buf bytes_in : List ℕ)
      → All IsByte bytes_in
      → IsDecoded buf bytes_in (base64_decode grow (encode_cells bytes_in) base64_decode_init buf)
  base64_decode-encode_cells buf [] h =
      unfold base64_decode encode_cells skip_initial decode_loop in
      record { no_error = refl; contents = sym (append-nil buf); at_end = inr refl }
  base64_decode-encode_cells buf (d0 ∷ rest) h =
      subst (λ t. IsDecoded buf (d0 ∷ rest) (base64_decode grow t base64_decode_init buf))
        (append-nil (encode_cells (d0 ∷ rest)))
        (rw (decode-cells buf (d0 ∷ rest) [] h (λ e. cc))
          (rw append-nil (loop-encode_cells buf (d0 ∷ rest) h)))

  loop_ignores_rest :
      (buf bytes_in text : List ℕ)
      → All IsByte bytes_in
      → length bytes_in % 3 ≢ 0
      → decode_loop grow base64_decode_init buf (encode_cells bytes_in ++ text)
        ≡ decode_loop grow base64_decode_init buf (encode_cells bytes_in)
  unfolding encode_cells
  loop_ignores_rest buf [] text h ne = absurd (ne refl)
  loop_ignores_rest buf (d0 ∷ []) text h ne = rw (low_two d0 h.0) (
      rw
        (
          two_letters grow room (d0 / 4) (d0 % 4 * 16) buf (b'=' ∷ b'=' ∷ text) (omega arith)
                (omega arith)
              ∙ padded_one grow room (d0 / 4 * 64 + d0 % 4 * 16) buf text,
          two_letters grow room (d0 / 4) (d0 % 4 * 16) buf (b'=' ∷ b'=' ∷ []) (omega arith)
                (omega arith)
              ∙ padded_one grow room (d0 / 4 * 64 + d0 % 4 * 16) buf [],
        )
        refl)
  loop_ignores_rest buf (d0 ∷ d1 ∷ []) text h ne =
      let v : ℕ = (d0 / 4 * 64 + (d0 % 4 * 16 + d1 / 16)) * 64 + d1 % 16 * 4 in
      rw (second_sextet d0 d1 h.0 h.1.0, low_four d1 h.1.0)
        (rw
          (
            three_letters grow room (d0 / 4) (d0 % 4 * 16 + d1 / 16) (d1 % 16 * 4) buf (b'=' ∷ text)
                  (omega arith) (omega arith) (omega arith)
                ∙ padded_two grow room v buf text,
            three_letters grow room (d0 / 4) (d0 % 4 * 16 + d1 / 16) (d1 % 16 * 4) buf (b'=' ∷ [])
                  (omega arith) (omega arith) (omega arith)
                ∙ padded_two grow room v buf [],
          )
          refl)
  loop_ignores_rest buf (d0 ∷ d1 ∷ d2 ∷ rest) text h ne =
      rw (append_assoc (base64_cell d0 d1 d2) (encode_cells rest) text) (
        rw
          (
            decode_cell grow room d0 d1 d2 buf (encode_cells rest ++ text) h.0 h.1.0 h.1.1.0,
            decode_cell grow room d0 d1 d2 buf (encode_cells rest) h.0 h.1.0 h.1.1.0,
          )
          (loop_ignores_rest (buf ++ d0 ∷ d1 ∷ d2 ∷ []) rest text h.1.1.1 (λ e. ne (omega arith))))

  -- Behind the padding any text is accepted, blank or not: decoding a padded text with anything
  -- appended has the outcome of decoding it alone, which is success.
  pub base64_decode_ignores_rest :
      (buf bytes_in text : List ℕ)
      → All IsByte bytes_in
      → length bytes_in % 3 ≢ 0
      → (base64_decode grow (encode_cells bytes_in ++ text) base64_decode_init buf
          ≡ base64_decode grow (encode_cells bytes_in) base64_decode_init buf)
        × IsDecoded buf bytes_in
            (base64_decode grow (encode_cells bytes_in ++ text) base64_decode_init buf)
  base64_decode_ignores_rest buf [] text h ne = absurd (ne refl)
  base64_decode_ignores_rest buf (d0 ∷ rest) text h ne =
      let same : base64_decode grow (encode_cells (d0 ∷ rest) ++ text) base64_decode_init buf
          ≡ base64_decode grow (encode_cells (d0 ∷ rest)) base64_decode_init buf =
        decode-cells buf (d0 ∷ rest) text h (λ e. cc)
        ∙ loop_ignores_rest buf (d0 ∷ rest) text h ne
        ∙ sym (ap (decode_loop grow base64_decode_init buf) (append-nil (encode_cells (d0 ∷ rest))))
        ∙ sym (decode-cells buf (d0 ∷ rest) [] h (λ e. cc))
        ∙ ap (λ t. base64_decode grow t base64_decode_init buf)
            (append-nil (encode_cells (d0 ∷ rest))) in
      (same, rw same (base64_decode-encode_cells buf (d0 ∷ rest) h))

-- The encoder writes `ptls_base64_howlong` characters and the NUL.
length-base64_encode :
    (bytes_in : List ℕ) → length (base64_encode bytes_in) ≡ base64_howlong (length bytes_in) + 1
unfolding base64_encode base64_howlong base64_cell
length-base64_encode [] = omega arith
length-base64_encode (d0 ∷ []) = omega arith
length-base64_encode (d0 ∷ d1 ∷ []) = omega arith
length-base64_encode (d0 ∷ d1 ∷ d2 ∷ rest) = omega (arith, length-base64_encode rest)
