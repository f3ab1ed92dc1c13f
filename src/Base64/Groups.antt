-- ===== src/Base64/Groups.antt =====
-- How `decode_loop` takes a group of four characters.
use picotls.Prelude.{
  ℕ, ◌+◌, ◌*◌, ◌/◌, ◌%◌, ◌^◌, ◌<◌, ◌≡◌, refl, ap, ◌∙◌, Bool, true, false, List, [], ◌∷◌, ◌++◌,
  arith, ◌==◌, lt→ltb, length,
}
use picotls.Wire.{IsByte}
use picotls.Base64.{
  letter, base64_cell, decode_done, decode_in_progress, DecodeState, base64_decode_init, Decoded,
  stop, skip_trailing, char_value, octets, shift_v, convert, no_letter, a_letter, turn, decode_loop,
}
use picotls.Base64.Arith.{low_six, second_sextet, third_sextet, push_sextet, char_value-letter}

-- `k` letters of a group are in, and their sextets make up `v`.
abbrev pub within_group : ℕ → ℕ → DecodeState
within_group k v = record { nbc = k; nbo = 3; status = decode_in_progress; v = v }

skip_trailing-nil : (text : List ℕ) → skip_trailing text ≡ []
unfolding skip_trailing
skip_trailing-nil [] = refl
skip_trailing-nil (c ∷ text) = ground (arith, skip_trailing-nil text)

module _ (grow : ℕ → ℕ → Bool) (room : (off delta : ℕ) → grow off delta ≡ true) where
  turn-letter :
      (st : DecodeState) (buf text : List ℕ) (x : ℕ)
      → x < 64
      → turn grow st buf (letter x) text ≡ a_letter grow st buf x text
  unfolding turn
  turn-letter st buf text x h = rw (char_value-letter x h, turn) refl

  -- A letter that does not fill the group.
  one_letter :
      (k v x : ℕ) (buf text : List ℕ)
      → k < 3
      → v < 2 ^ 26
      → x < 64
      → decode_loop grow (within_group k v) buf (letter x ∷ text)
        ≡ decode_loop grow (within_group (k + 1) (v * 64 + x)) buf text
  unfolding decode_loop
  one_letter k v x buf text hk hv hx =
      rw (turn-letter (within_group k v) buf text x hx)
        (unfold a_letter in rw (push_sextet v x hv hx, not_full k hk) refl)
    where
      not_full : (n : ℕ) → n < 3 → (n + 1 == 4) ≡ false
      not_full n h = ground arith

  -- The letter that fills it.
  last_letter :
      (v x : ℕ) (buf text : List ℕ)
      → v < 2 ^ 26
      → x < 64
      → decode_loop grow (within_group 3 v) buf (letter x ∷ text)
        ≡ decode_loop grow base64_decode_init (buf ++ octets 3 (v * 64 + x)) text
  unfolding decode_loop
  last_letter v x buf text hv hx = rw (turn-letter (within_group 3 v) buf text x hx) (
      unfold a_letter in
      rw (push_sextet v x hv hx) (unfold convert in rw (room (length buf) 3) refl))

  pub two_letters :
      (x0 x1 : ℕ) (buf text : List ℕ)
      → x0 < 64
      → x1 < 64
      → decode_loop grow base64_decode_init buf (letter x0 ∷ letter x1 ∷ text)
        ≡ decode_loop grow (within_group 2 (x0 * 64 + x1)) buf text
  two_letters x0 x1 buf text h0 h1 =
      one_letter 0 0 x0 buf _ (omega arith) (omega arith) h0
      ∙ one_letter 1 (0 * 64 + x0) x1 buf _ (omega arith) (omega arith) h1
      ∙ ap (λ v. decode_loop grow (within_group 2 v) buf text) (omega arith)

  pub three_letters :
      (x0 x1 x2 : ℕ) (buf text : List ℕ)
      → x0 < 64
      → x1 < 64
      → x2 < 64
      → decode_loop grow base64_decode_init buf (letter x0 ∷ letter x1 ∷ letter x2 ∷ text)
        ≡ decode_loop grow (within_group 3 ((x0 * 64 + x1) * 64 + x2)) buf text
  three_letters x0 x1 x2 buf text h0 h1 h2 =
      two_letters x0 x1 buf _ h0 h1
      ∙ one_letter 2 (x0 * 64 + x1) x2 buf _ (omega arith) (omega arith) h2

  -- A whole group of letters.
  group :
      (x0 x1 x2 x3 : ℕ) (buf text : List ℕ)
      → x0 < 64
      → x1 < 64
      → x2 < 64
      → x3 < 64
      → decode_loop grow base64_decode_init buf
          (letter x0 ∷ letter x1 ∷ letter x2 ∷ letter x3 ∷ text)
        ≡ decode_loop grow base64_decode_init
            (buf ++ octets 3 (((x0 * 64 + x1) * 64 + x2) * 64 + x3))
            text
  group x0 x1 x2 x3 buf text h0 h1 h2 h3 =
      three_letters x0 x1 x2 buf _ h0 h1 h2
      ∙ last_letter ((x0 * 64 + x1) * 64 + x2) x3 buf text (omega arith) h3

  -- The state when padding has ended the text with `n` octets of `v`.
  abbrev pub ended : ℕ → ℕ → List ℕ → Decoded
  ended n v buf = record {
    ret = 0;
    state = record { nbc = 4; nbo = n; status = decode_done; v = v };
    buf = buf ++ octets n v;
  }

  -- Padding ends the decoding, whatever follows it.
  convert_padded :
      (n v : ℕ) (buf text : List ℕ)
      → n < 3
      → convert grow (record { nbc = 4; nbo = n; status = decode_in_progress; v = v }) buf text
        ≡ stop (ended n v buf)
  unfolding convert
  convert_padded n v buf text h =
      rw (room (length buf) n, skip_trailing-nil text, lt→ltb n 3 h) refl

  pub padded_one :
      (v : ℕ) (buf text : List ℕ)
      → decode_loop grow (within_group 2 v) buf (b'=' ∷ b'=' ∷ text) ≡ ended 1 (shift_v v 12) buf
  unfolding decode_loop turn char_value no_letter
  padded_one v buf text = rw (convert_padded 1 (shift_v v 12) buf text (omega arith)) refl

  pub padded_two :
      (v : ℕ) (buf text : List ℕ)
      → decode_loop grow (within_group 3 v) buf (b'=' ∷ text) ≡ ended 2 (shift_v v 6) buf
  unfolding decode_loop turn char_value no_letter
  padded_two v buf text = rw (convert_padded 2 (shift_v v 6) buf text (omega arith)) refl

  octets_whole :
      (d0 d1 d2 v : ℕ)
      → IsByte d0
      → IsByte d1
      → IsByte d2
      → v ≡ (d0 * 256 + d1) * 256 + d2
      → octets 3 v ≡ d0 ∷ d1 ∷ d2 ∷ []
  unfolding octets
  octets_whole d0 d1 d2 v h0 h1 h2 e = ground arith

  pub decode_cell :
      (d0 d1 d2 : ℕ) (buf text : List ℕ)
      → IsByte d0
      → IsByte d1
      → IsByte d2
      → decode_loop grow base64_decode_init buf (base64_cell d0 d1 d2 ++ text)
        ≡ decode_loop grow base64_decode_init (buf ++ d0 ∷ d1 ∷ d2 ∷ []) text
  unfolding base64_cell
  decode_cell d0 d1 d2 buf text h0 h1 h2 =
      rw (second_sextet d0 d1 h0 h1, third_sextet d1 d2 h1 h2, low_six d2 h2)
        (group (d0 / 4) (d0 % 4 * 16 + d1 / 16) (d1 % 16 * 4 + d2 / 64) (d2 % 64) buf text
            (omega arith) (omega arith) (omega arith) (omega arith)
          ∙ ap (λ t. decode_loop grow base64_decode_init (buf ++ t) text)
              (octets_whole d0 d1 d2 _ h0 h1 h2 (omega arith)))
