-- ===== src/Base64.antt =====
-- Base64, lib/pembase64.c. A text is the list of its characters up to the terminating NUL; a data
-- buffer is the list of its bytes. `grow off delta` says whether `ptls_buffer__do_pushv` finds the
-- memory for `delta` more bytes behind `off`.
pub mod Arith
pub mod Groups
pub mod RoundTrip
use picotls.Prelude.{
  ℕ, ◌+◌, ◌*◌, ◌/◌, ◌%◌, ◌^◌, bit_and, bit_or, Bool, true, false, not, ◌&&◌, ◌||◌, Option, none,
  some, List, [], ◌∷◌, ◌++◌, ltb, ◌==◌, if◌then◌else◌, length, get_or, take, drop,
}
use picotls.Code.{error_incorrect_base64, error_no_memory}

-- `ptls_base64_alphabet`
unfoldable pub base64_alphabet : List ℕ
base64_alphabet =
    65 ∷ 66 ∷ 67 ∷ 68 ∷ 69 ∷ 70 ∷ 71 ∷ 72 ∷ 73 ∷ 74 ∷ 75 ∷ 76 ∷ 77 ∷ 78 ∷ 79 ∷ 80 ∷ 81 ∷ 82 ∷ 83
    ∷ 84 ∷ 85 ∷ 86 ∷ 87 ∷ 88 ∷ 89 ∷ 90 ∷ 97 ∷ 98 ∷ 99 ∷ 100 ∷ 101 ∷ 102 ∷ 103 ∷ 104 ∷ 105 ∷ 106
    ∷ 107 ∷ 108 ∷ 109 ∷ 110 ∷ 111 ∷ 112 ∷ 113 ∷ 114 ∷ 115 ∷ 116 ∷ 117 ∷ 118 ∷ 119 ∷ 120 ∷ 121 ∷ 122
    ∷ 48 ∷ 49 ∷ 50 ∷ 51 ∷ 52 ∷ 53 ∷ 54 ∷ 55 ∷ 56 ∷ 57 ∷ 43 ∷ 47 ∷ []

-- `ptls_base64_values`; `none` is -1.
unfoldable pub base64_values : List (Option ℕ)
base64_values =
    none
    ∷ none
    ∷ none
    ∷ none
    ∷ none
    ∷ none
    ∷ none
    ∷ none
    ∷ none
    ∷ none
    ∷ none
    ∷ none
    ∷ none
    ∷ none
    ∷ none
    ∷ none
    ∷ none
    ∷ none
    ∷ none
    ∷ none
    ∷ none
    ∷ none
    ∷ none
    ∷ none
    ∷ none
    ∷ none
    ∷ none
    ∷ none
    ∷ none
    ∷ none
    ∷ none
    ∷ none
    ∷ none
    ∷ none
    ∷ none
    ∷ none
    ∷ none
    ∷ none
    ∷ none
    ∷ none
    ∷ none
    ∷ none
    ∷ none
    ∷ some 62
    ∷ none
    ∷ none
    ∷ none
    ∷ some 63
    ∷ some 52
    ∷ some 53
    ∷ some 54
    ∷ some 55
    ∷ some 56
    ∷ some 57
    ∷ some 58
    ∷ some 59
    ∷ some 60
    ∷ some 61
    ∷ none
    ∷ none
    ∷ none
    ∷ none
    ∷ none
    ∷ none
    ∷ none
    ∷ some 0
    ∷ some 1
    ∷ some 2
    ∷ some 3
    ∷ some 4
    ∷ some 5
    ∷ some 6
    ∷ some 7
    ∷ some 8
    ∷ some 9
    ∷ some 10
    ∷ some 11
    ∷ some 12
    ∷ some 13
    ∷ some 14
    ∷ some 15
    ∷ some 16
    ∷ some 17
    ∷ some 18
    ∷ some 19
    ∷ some 20
    ∷ some 21
    ∷ some 22
    ∷ some 23
    ∷ some 24
    ∷ some 25
    ∷ none
    ∷ none
    ∷ none
    ∷ none
    ∷ none
    ∷ none
    ∷ some 26
    ∷ some 27
    ∷ some 28
    ∷ some 29
    ∷ some 30
    ∷ some 31
    ∷ some 32
    ∷ some 33
    ∷ some 34
    ∷ some 35
    ∷ some 36
    ∷ some 37
    ∷ some 38
    ∷ some 39
    ∷ some 40
    ∷ some 41
    ∷ some 42
    ∷ some 43
    ∷ some 44
    ∷ some 45
    ∷ some 46
    ∷ some 47
    ∷ some 48
    ∷ some 49
    ∷ some 50
    ∷ some 51
    ∷ none
    ∷ none
    ∷ none
    ∷ none
    ∷ none
    ∷ []

unfoldable pub letter : ℕ → ℕ
unfolding base64_alphabet
letter n = get_or base64_alphabet n 0

-- `ptls_base64_cell`
unfoldable pub base64_cell : ℕ → ℕ → ℕ → List ℕ
base64_cell d0 d1 d2 =
    letter (d0 / 2 ^ 2)
    ∷ letter (bit_or (bit_and d0 3 * 2 ^ 4) (d1 / 2 ^ 4))
    ∷ letter (bit_or (bit_and d1 15 * 2 ^ 2) (d2 / 2 ^ 6))
    ∷ letter (bit_and d2 63)
    ∷ []

unfoldable pub base64_howlong : ℕ → ℕ
base64_howlong data_length = (data_length + 2) / 3 * 4

-- The loop over whole cells, and the `switch` on what is left.
unfoldable pub encode_cells : List ℕ → List ℕ
unfolding base64_cell
encode_cells (d0 ∷ d1 ∷ d2 ∷ rest) = base64_cell d0 d1 d2 ++ encode_cells rest
encode_cells (d0 ∷ d1 ∷ []) =
    letter (d0 / 2 ^ 2)
    ∷ letter (bit_or (bit_and d0 3 * 2 ^ 4) (d1 / 2 ^ 4))
    ∷ letter (bit_and d1 15 * 2 ^ 2)
    ∷ b'='
    ∷ []
encode_cells (d0 ∷ []) = letter (d0 / 2 ^ 2) ∷ letter (bit_and d0 3 * 2 ^ 4) ∷ b'=' ∷ b'=' ∷ []
encode_cells [] = []

-- The text with its NUL; the function returns its length.
unfoldable pub base64_encode : List ℕ → List ℕ
unfolding encode_cells
base64_encode bytes_in = encode_cells bytes_in ++ 0 ∷ []

pub data Status : Type 0 where
  decode_done decode_in_progress decode_failed : Status

-- `ptls_base64_decode_state_t`
pub record DecodeState : Type 0 where
  pub nbc : ℕ
  pub nbo : ℕ
  pub status : Status
  pub v : ℕ

abbrev pub base64_decode_init : DecodeState
base64_decode_init = record { nbc = 0; nbo = 3; status = decode_in_progress; v = 0 }

-- The return value, `*state` and `*buf` after a call.
pub record Decoded : Type 0 where
  pub ret : ℕ
  pub state : DecodeState
  pub buf : List ℕ

-- How the loop goes on behind one character.
pub data Turn : Type 0 where
  stop : Decoded → Turn
  next : DecodeState → List ℕ → Turn

abbrev pub is_blank : ℕ → Bool
is_blank c = c == b' ' || c == 9 || c == 13 || c == 10

abbrev pub is_final_blank : ℕ → Bool
is_final_blank c = is_blank c || c == 0x0b || c == 0x0c

unfoldable pub skip_initial : List ℕ → List ℕ
skip_initial [] = []
skip_initial (c ∷ text) = if is_blank c then skip_initial text else c ∷ text

unfoldable pub skip_final : List ℕ → List ℕ
skip_final [] = []
skip_final (c ∷ text) = if is_final_blank c then skip_final text else c ∷ text

-- "Check that there are only trailing blanks on this line": the loop goes on to the end of the
-- text, whatever the character is.
unfoldable pub skip_trailing : List ℕ → List ℕ
skip_trailing [] = []
skip_trailing (c ∷ text) = let rest = skip_trailing text in if is_final_blank c then rest else rest

unfoldable pub char_value : ℕ → Option ℕ
unfolding base64_values
char_value c = if ltb 0 c && ltb c 0x7f then get_or base64_values c none else none

-- `state->v <<= bits`, in a uint32_t
abbrev pub shift_v : ℕ → ℕ → ℕ
shift_v v bits = v * 2 ^ bits % 2 ^ 32

-- The first `nbo` of the three octets of `v`.
unfoldable pub octets : ℕ → ℕ → List ℕ
octets nbo v = take nbo ((v / 2 ^ 16 % 256) ∷ (v / 2 ^ 8 % 256) ∷ (v % 256) ∷ [])

module _ (grow : ℕ → ℕ → Bool) where
  -- Four characters are in: their octets are pushed. `text` is what follows them.
  unfoldable pub convert : DecodeState → List ℕ → List ℕ → Turn
  convert st buf text =
      if not (grow (length buf) st.nbo)
      then stop (record { ret = error_no_memory; state = st; buf = buf })
      else let buf' = buf ++ octets st.nbo st.v in
        if ltb st.nbo 3
        then if length (skip_trailing text) == 0
          then stop (record { ret = 0; state = record st { status = decode_done }; buf = buf' })
          else stop (record {
            ret = error_incorrect_base64;
            state = record st { status = decode_failed };
            buf = buf';
          })
        else next (record st { v = 0; nbo = 3; nbc = 0 }) buf'

  -- A character that is no letter: padding, or the end of the line.
  unfoldable pub no_letter : DecodeState → List ℕ → ℕ → List ℕ → Turn
  no_letter st buf c text =
      if st.nbc == 2 && c == b'=' && get_or text 0 0 == b'='
      then convert (record st { nbc = 4; nbo = 1; v = shift_v st.v 12 }) buf (drop 1 text)
      else if st.nbc == 3 && c == b'='
      then convert (record st { nbc = 4; nbo = 2; v = shift_v st.v 6 }) buf text
      else if length (skip_final (c ∷ text)) == 0
      then stop (record { ret = 0; state = st; buf = buf })
      else stop (record {
        ret = error_incorrect_base64;
        state = record st { nbo = 0; status = decode_failed };
        buf = buf;
      })

  unfoldable pub a_letter : DecodeState → List ℕ → ℕ → List ℕ → Turn
  a_letter st buf vc text =
      let st' : DecodeState = record st { nbc = st.nbc + 1; v = bit_or (shift_v st.v 6) vc } in
      if st'.nbc == 4 then convert st' buf text else next st' buf

  unfoldable pub turn : DecodeState → List ℕ → ℕ → List ℕ → Turn
  turn st buf c text = elim (char_value c) [
    | some vc ↦ a_letter st buf vc text
    | none ↦ no_letter st buf c text
  ]

  abbrev pub in_progress : DecodeState → Bool
  in_progress st = elim st.status [ decode_in_progress ↦ true | _ ↦ false ]

  unfoldable pub decode_loop : DecodeState → List ℕ → List ℕ → Decoded
  decode_loop st buf [] = record { ret = 0; state = st; buf = buf }
  decode_loop st buf (c ∷ text) =
      if in_progress st
      then elim (turn st buf c text) [ stop d ↦ d | next st' buf' ↦ decode_loop st' buf' text ]
      else record { ret = 0; state = st; buf = buf }

  unfoldable pub base64_decode : List ℕ → DecodeState → List ℕ → Decoded
  base64_decode text st buf = decode_loop st buf (skip_initial text)
