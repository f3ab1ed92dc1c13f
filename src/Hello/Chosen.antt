-- ===== src/Hello/Chosen.antt =====
-- The extensions of a ServerHello in each mode, as a list.
use picotls.Prelude.{
  ℕ, ◌+◌, ◌^◌, ◌<◌, ◌≡◌, ap, Bool, true, false, Option, none, some, List, [], ◌∷◌, ◌++◌, append-nil,
  length, length-append, arith,
}
use picotls.Wire.{push16}
use picotls.Extensions.{buffer_push_extension}
use picotls.Extensions.Pushed.{push_extensions}
use picotls.Hello.{
  push_key_share_entry, HandshakeMode, full, psk, psk_dhe, mode_extensions, uint16_max,
}
use picotls.Hello.Modes.{length-push16, length-buffer_push_extension, length-push_key_share_entry}

-- What a client learns of a mode.
abbrev pub sent_key : HandshakeMode → List ℕ → Option (List ℕ)
sent_key full pubkey = some pubkey
sent_key psk pubkey = none
sent_key psk_dhe pubkey = some pubkey

abbrev pub uses_psk : HandshakeMode → Bool
uses_psk full = false
uses_psk psk = true
uses_psk psk_dhe = true

abbrev pub sent_identity : HandshakeMode → ℕ
sent_identity full = uint16_max
sent_identity psk = 0
sent_identity psk_dhe = 0

abbrev pub extensions_of : HandshakeMode → ℕ → ℕ → List ℕ → List (ℕ × List ℕ)
extensions_of full v group pubkey = (43, push16 v) ∷ (51, push_key_share_entry group pubkey) ∷ []
extensions_of psk v group pubkey = (43, push16 v) ∷ (41, push16 0) ∷ []
extensions_of psk_dhe v group pubkey =
    (43, push16 v) ∷ (51, push_key_share_entry group pubkey) ∷ (41, push16 0) ∷ []

pub push_extensions-mode_extensions :
    (mode : HandshakeMode) (v group : ℕ) (pubkey : List ℕ)
    → push_extensions (extensions_of mode v group pubkey)
      ≡ buffer_push_extension 43 (push16 v) ++ mode_extensions mode group pubkey 0
unfolding mode_extensions
push_extensions-mode_extensions full v group pubkey =
    ap (λ e. buffer_push_extension 43 (push16 v) ++ e)
      (append-nil (buffer_push_extension 51 (push_key_share_entry group pubkey)))
push_extensions-mode_extensions psk v group pubkey =
    ap (λ e. buffer_push_extension 43 (push16 v) ++ e)
      (append-nil (buffer_push_extension 41 (push16 0)))
push_extensions-mode_extensions psk_dhe v group pubkey =
    ap
      (λ e.
        buffer_push_extension 43 (push16 v)
        ++ (buffer_push_extension 51 (push_key_share_entry group pubkey) ++ e))
      (append-nil (buffer_push_extension 41 (push16 0)))

-- One more extension in front.
cons_size :
    (t : ℕ) (body : List ℕ) (es : List (ℕ × List ℕ))
    → length (push_extensions ((t, body) ∷ es)) ≡ 4 + length body + length (push_extensions es)
cons_size t body es = omega (
  arith,
  length-append (buffer_push_extension t body) (push_extensions es),
  length-buffer_push_extension t body,
)

pub extensions_fit :
    (mode : HandshakeMode) (v group : ℕ) (pubkey : List ℕ)
    → length pubkey < 2 ^ 15
    → length (push_extensions (extensions_of mode v group pubkey)) < 2 ^ 16
extensions_fit full v group pubkey h =
    let share : List ℕ = push_key_share_entry group pubkey in
    omega (
      arith,
      cons_size 43 (push16 v) ((51, share) ∷ []),
      cons_size 51 share [],
      length-push16 v,
      length-push_key_share_entry group pubkey,
    )
extensions_fit psk v group pubkey h = omega (
  arith,
  cons_size 43 (push16 v) ((41, push16 0) ∷ []),
  cons_size 41 (push16 0) [],
  length-push16 v,
  length-push16 0,
)
extensions_fit psk_dhe v group pubkey h =
    let share : List ℕ = push_key_share_entry group pubkey in
    omega (
      arith,
      cons_size 43 (push16 v) ((51, share) ∷ (41, push16 0) ∷ []),
      cons_size 51 share ((41, push16 0) ∷ []),
      cons_size 41 (push16 0) [],
      length-push16 v,
      length-push16 0,
      length-push_key_share_entry group pubkey,
    )
