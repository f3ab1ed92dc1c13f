-- ===== src/Tests/Hello.antt =====
-- A ServerHello at a concrete input.
use picotls.Prelude.{
  ℕ, ◌≡◌, refl, true, false, none, some, List, [], ◌∷◌, arith, take, drop, replicate, ok,
}
use picotls.Prelude.Compare.{same_bytes}
use picotls.Hello.Accepted.{Sound, decode_server_hello-Sound}
use picotls.Extensions.{call_on_extension}
use picotls.Ticket.{find_id}
use picotls.Hello.{
  ServerHello, hello_retry_random, peerkey, is_among, is_supported_version, decode_server_hello,
  push_server_hello, psk_dhe, mode_extensions,
}
use picotls.Hello.Sent.{LetsAll}
use picotls.Hello.RoundTrip.{decode_server_hello-mode_extensions}

abbrev same_id : ℕ → ℕ
same_id n = n

known_suite : find_id same_id (0x1302 ∷ 0x1301 ∷ []) 0x1301 ≡ some 0x1301
unfolding find_id
known_suite = refl

known_version : is_supported_version 0x0304 ≡ true
unfolding is_supported_version is_among
known_version = refl

lets : LetsAll none
unfolding call_on_extension
lets t body = refl

decode_server_hello-mode_extensions_example :
    decode_server_hello same_id (0x1302 ∷ 0x1301 ∷ []) none (some 29) true false (
      push_server_hello
        (replicate 32 5)
        (8 ∷ 8 ∷ [])
        0x1301
        0x0304
        (mode_extensions psk_dhe 29 (1 ∷ 2 ∷ 3 ∷ []) 0))
    ≡ ok (record {
      legacy_session_id = 8 ∷ 8 ∷ [];
      body = peerkey (some (1 ∷ 2 ∷ 3 ∷ []));
      cipher_suite = 0x1301;
      is_psk_handshake = true;
    })
decode_server_hello-mode_extensions_example =
    decode_server_hello-mode_extensions same_id (0x1302 ∷ 0x1301 ∷ []) none true false psk_dhe
      (replicate 32 5) (8 ∷ 8 ∷ []) 0x1301 0x0304 29 (1 ∷ 2 ∷ 3 ∷ []) lets refl refl (omega arith)
      known_suite (omega arith) known_version (omega arith) (omega arith) (omega arith) refl

abbrev sent : List ℕ
sent =
    push_server_hello (replicate 32 5) (8 ∷ 8 ∷ []) 0x1301 0x0304
      (mode_extensions psk_dhe 29 (1 ∷ 2 ∷ 3 ∷ []) 0)

abbrev received : ServerHello ℕ
received = record {
  legacy_session_id = 8 ∷ 8 ∷ [];
  body = peerkey (some (1 ∷ 2 ∷ 3 ∷ []));
  cipher_suite = 0x1301;
  is_psk_handshake = true;
}

accepted :
    decode_server_hello same_id (0x1302 ∷ 0x1301 ∷ []) none (some 29) true false sent ≡ ok received
accepted =
    decode_server_hello-mode_extensions same_id (0x1302 ∷ 0x1301 ∷ []) none true false psk_dhe
      (replicate 32 5) (8 ∷ 8 ∷ []) 0x1301 0x0304 29 (1 ∷ 2 ∷ 3 ∷ []) lets refl refl (omega arith)
      known_suite (omega arith) known_version (omega arith) (omega arith) (omega arith) refl

decode_server_hello-Sound_example :
    Sound same_id
      (0x1302 ∷ 0x1301 ∷ [])
      none
      (some 29)
      true
      false
      (same_bytes (take 32 (drop 2 sent)) hello_retry_random)
      received
decode_server_hello-Sound_example =
    decode_server_hello-Sound same_id (0x1302 ∷ 0x1301 ∷ []) none (some 29) true false sent received
      accepted
