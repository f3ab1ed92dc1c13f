-- ===== src/Hello/RoundTrip.antt =====
-- A client reads of a ServerHello what the server chose.
use picotls.Prelude.{
  ℕ, ◌^◌, ◌≤◌, ◌<◌, ◌≡◌, refl, ◌∙◌, Bool, true, false, not, ◌||◌, Option, none, some, List, [],
  length, ok, arith,
}
use mathlib.Core.Path.{subst, sym}
use picotls.Prelude.Compare.{same_bytes}
use picotls.Wire.{push16}
use picotls.Extensions.{init_extension_bitmap}
use picotls.Extensions.Pushed.{Reads}
use picotls.Ticket.{OnExtension, find_id}
use picotls.Hello.{
  peerkey, HelloExts, is_supported_version, push_key_share_entry, hello_extension,
  server_hello_extension, check_identity, check_hello, initial_body, decode_server_hello,
  push_server_hello, hello_retry_random, HandshakeMode, full, psk, psk_dhe, mode_extensions,
  uint16_max,
}
use picotls.Hello.Sent.{
  LetsAll, server_hello_extension-passed, decode_server_hello-push_server_hello,
}
use picotls.Hello.Modes.{
  state, version_step, key_share_step, psk_step, version_free, key_share_free, psk_free,
  psk_free_last, length-push16, length-push_key_share_entry,
}
use picotls.Hello.Chosen.{
  sent_key, uses_psk, sent_identity, extensions_of, push_extensions-mode_extensions, extensions_fit,
}

module _ (on_extension : OnExtension) (lets : LetsAll on_extension) (v group : ℕ) (pubkey : List ℕ)
    (small_v : v < 2 ^ 16) (small_group : group < 2 ^ 16) (small : length pubkey < 2 ^ 15) where
  passed :
      (st st' : HelloExts) (t : ℕ) (body : List ℕ)
      → hello_extension (some group) st t body ≡ ok (st', [])
      → server_hello_extension on_extension (some group) st t body ≡ ok (st', [])
  passed st st' t body e =
      server_hello_extension-passed on_extension (some group) st t body lets ∙ e

  share_fits : length (push_key_share_entry group pubkey) < 2 ^ 16
  share_fits = omega (arith, length-push_key_share_entry group pubkey, small)

  -- The version is first in every mode.
  version_first :
      server_hello_extension on_extension
        (some group)
        (state (peerkey none) uint16_max uint16_max)
        43
        (push16 v)
      ≡ ok (state (peerkey none) v uint16_max, [])
  version_first =
      passed (state (peerkey none) uint16_max uint16_max) (state (peerkey none) v uint16_max) 43
        (push16 v) (version_step (some group) (peerkey none) v uint16_max uint16_max small_v)

  share_next :
      server_hello_extension on_extension
        (some group)
        (state (peerkey none) v uint16_max)
        51
        (push_key_share_entry group pubkey)
      ≡ ok (state (peerkey (some pubkey)) v uint16_max, [])
  share_next =
      passed (state (peerkey none) v uint16_max) (state (peerkey (some pubkey)) v uint16_max) 51
        (push_key_share_entry group pubkey)
        (key_share_step group pubkey none v uint16_max small_group (omega arith))

  psk_last :
      (held : Option (List ℕ))
      → server_hello_extension on_extension
          (some group)
          (state (peerkey held) v uint16_max)
          41
          (push16 0)
        ≡ ok (state (peerkey held) v 0, [])
  psk_last held =
      passed (state (peerkey held) v uint16_max) (state (peerkey held) v 0) 41 (push16 0)
        (psk_step (some group) held v uint16_max 0 (omega arith))

  two_bytes : (w : ℕ) → length (push16 w) < 2 ^ 16
  two_bytes w = omega (arith, length-push16 w)

  Reads-mode :
      (mode : HandshakeMode)
      → Reads
          (server_hello_extension on_extension (some group))
          (init_extension_bitmap 2)
          (state (peerkey none) uint16_max uint16_max)
          (extensions_of mode v group pubkey)
          (state (peerkey (sent_key mode pubkey)) v (sent_identity mode))
  Reads-mode full = (
    state (peerkey none) v uint16_max,
    version_first,
    omega arith,
    two_bytes v,
    version_free,
    (
      state (peerkey (some pubkey)) v uint16_max,
      share_next,
      omega arith,
      share_fits,
      key_share_free,
      refl,
    ),
  )
  Reads-mode psk = (
    state (peerkey none) v uint16_max,
    version_first,
    omega arith,
    two_bytes v,
    version_free,
    (state (peerkey none) v 0, psk_last none, omega arith, two_bytes 0, psk_free, refl),
  )
  Reads-mode psk_dhe = (
    state (peerkey none) v uint16_max,
    version_first,
    omega arith,
    two_bytes v,
    version_free,
    (
      state (peerkey (some pubkey)) v uint16_max,
      share_next,
      omega arith,
      share_fits,
      key_share_free,
      (
        state (peerkey (some pubkey)) v 0,
        psk_last (some pubkey),
        omega arith,
        two_bytes 0,
        psk_free_last,
        refl,
      ),
    ),
  )

check_hello-mode :
    (mode : HandshakeMode) (v : ℕ) (pubkey : List ℕ) (offered_psk is_psk : Bool)
    → is_supported_version v ≡ true
    → (not (uses_psk mode) || offered_psk) ≡ true
    → check_hello offered_psk is_psk
        (state (peerkey (sent_key mode pubkey)) v (sent_identity mode))
        (peerkey (sent_key mode pubkey))
      ≡ ok (uses_psk mode || is_psk)
unfolding check_hello check_identity
check_hello-mode full v pubkey offered_psk is_psk known offers = rw known refl
check_hello-mode psk v pubkey offered_psk is_psk known offers = rw (known, offers) refl
check_hello-mode psk_dhe v pubkey offered_psk is_psk known offers = rw (known, offers) refl

initial_body-random :
    (random : List ℕ)
    → same_bytes random hello_retry_random ≡ false
    → initial_body random ≡ peerkey none
unfolding initial_body
initial_body-random random h = rw h refl

-- The ServerHello that a server pushes in a mode, with a random value of 32 bytes that is not the
-- one of a retry, is read by a client that has the group's key share, and has offered a pre-shared
-- key where the mode uses one: it gets the session id, the cipher suite, the key where the mode
-- sends one, and whether the handshake is on a pre-shared key, which is the first one. The suite is
-- the one that its id leads to, the version is supported, the session id has at most 32 bytes and
-- the key fewer than 2 ^ 15, and the callback lets the extensions pass.
pub decode_server_hello-mode_extensions :
    {Cs : Type 0} (cs_id : Cs → ℕ) (cipher_suites : List Cs) (on_extension : OnExtension)
    (offered_psk is_psk : Bool) (mode : HandshakeMode) (random session_id : List ℕ) (cs : Cs)
    (v group : ℕ) (pubkey : List ℕ)
    → LetsAll on_extension
    → length random ≡ 32
    → same_bytes random hello_retry_random ≡ false
    → length session_id ≤ 32
    → find_id cs_id cipher_suites (cs_id cs) ≡ some cs
    → cs_id cs < 2 ^ 16
    → is_supported_version v ≡ true
    → v < 2 ^ 16
    → group < 2 ^ 16
    → length pubkey < 2 ^ 15
    → (not (uses_psk mode) || offered_psk) ≡ true
    → decode_server_hello cs_id cipher_suites on_extension
        (some group)
        offered_psk
        is_psk
        (push_server_hello random session_id (cs_id cs) v (mode_extensions mode group pubkey 0))
      ≡ ok (record {
        legacy_session_id = session_id;
        body = peerkey (sent_key mode pubkey);
        cipher_suite = cs;
        is_psk_handshake = uses_psk mode || is_psk;
      })
decode_server_hello-mode_extensions cs_id suites on_extension offered is_psk mode random session_id
      cs v group pubkey lets size fresh id_size has small_cs known small_v small_group small
      offers =
    decode_server_hello-push_server_hello cs_id suites on_extension (some group) offered is_psk
      random session_id cs v (mode_extensions mode group pubkey 0)
      (extensions_of mode v group pubkey)
      (state (peerkey (sent_key mode pubkey)) v (sent_identity mode)) (uses_psk mode || is_psk) size
      id_size has small_cs (push_extensions-mode_extensions mode v group pubkey)
      (extensions_fit mode v group pubkey small)
      (subst
        (λ b.
          Reads (server_hello_extension on_extension (some group)) (init_extension_bitmap 2)
            (state b uint16_max uint16_max) (extensions_of mode v group pubkey)
            (state (peerkey (sent_key mode pubkey)) v (sent_identity mode)))
        (sym (initial_body-random random fresh))
        (Reads-mode on_extension lets v group pubkey small_v small_group small mode))
      (check_hello-mode mode v pubkey offered is_psk known offers)
