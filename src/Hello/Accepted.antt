-- ===== src/Hello/Accepted.antt =====
-- Whatever a server sends, what a client has accepted is sound.
use picotls.Prelude.{
  ℕ, ◌≤◌, ◌≡◌, refl, Bool, true, false, not, ◌||◌, Option, none, some, List, [], leb, leb→le, ◌==◌,
  if◌then◌else◌, length, take, drop, Result, ok, err, guard, ◌>>◌, ◌>>=◌,
}
use mathlib.Core.Path.{subst}
use picotls.Prelude.Compare.{same_bytes}
use picotls.Code.{alert_decode_error, alert_illegal_parameter}
use picotls.Wire.{bytes, decode16, decode_open_block}
use picotls.Wire.Blocks.{decode_open_block-Inside}
use picotls.Extensions.{decode_extensions}
use picotls.Extensions.Invariant.{decode_extensions-kept}
use picotls.KeySchedule.Fed.{WhenOk}
use picotls.Ticket.{OnExtension, find_id}
use picotls.Hello.{
  HelloBody, peerkey, retry_request, HelloExts, ServerHello, hello_retry_random, uint16_max,
  is_supported_version, server_hello_extension, take_session_id, null_compression,
  find_cipher_suite, check_identity, check_hello, initial_body, decode_after_random,
  decode_server_hello,
}
use picotls.Hello.Kind.{is_retry, if-WhenOk, check-WhenOk, kind_kept}

-- With the equation of the first part.
bind_with-WhenOk {ℓ ℓ' κ} :
    {A : Type ℓ} {B : Type ℓ'} (P : B → Type κ) (first : Result A) (rest : A → Result B)
    → ((a : A) → first ≡ ok a → WhenOk P (rest a))
    → WhenOk P (first >>= rest)
bind_with-WhenOk P (err code) rest h = tt
bind_with-WhenOk P (ok a) rest h = h a refl

-- Without a key there is a pre-shared key, and one only that was offered or there before.
abbrev pub IsKeyed : Bool → HelloBody → Bool → Type 0
IsKeyed known (peerkey none) psk = (psk ≡ true) × (known ≡ true)
IsKeyed known (peerkey (some key)) psk = (not psk || known) ≡ true
IsKeyed known (retry_request group cookie) psk = (not psk || known) ≡ true

known_self : (offered is_psk : Bool) → (not is_psk || (offered || is_psk)) ≡ true
known_self true true = refl
known_self true false = refl
known_self false true = refl
known_self false false = refl

abbrev IsKnown : Bool → Bool → Type 0
IsKnown known psk = (not psk || known) ≡ true

check_identity-WhenOk :
    (offered is_psk : Bool) (identity : ℕ)
    → WhenOk (IsKnown (offered || is_psk)) (check_identity offered is_psk identity)
unfolding check_identity
check_identity-WhenOk true is_psk identity =
    if-WhenOk (IsKnown true) (identity == uint16_max) (ok is_psk) _ (known_self true is_psk)
      (check-WhenOk (IsKnown true) (guard (identity == 0) alert_illegal_parameter) (ok true) refl)
check_identity-WhenOk false is_psk identity =
    if-WhenOk (IsKnown is_psk) (identity == uint16_max) (ok is_psk) _ (known_self false is_psk) tt

check_hello-WhenOk :
    (offered is_psk : Bool) (st : HelloExts) (body : HelloBody)
    → WhenOk (IsKeyed (offered || is_psk) body) (check_hello offered is_psk st body)
unfolding check_hello
check_hello-WhenOk offered is_psk st (retry_request group cookie) =
    check-WhenOk (IsKnown (offered || is_psk))
      (guard (is_supported_version st.found_version) alert_illegal_parameter) (ok is_psk)
      (known_self offered is_psk)
check_hello-WhenOk offered is_psk st (peerkey (some key)) =
    check-WhenOk (IsKnown (offered || is_psk))
      (guard (is_supported_version st.found_version) alert_illegal_parameter)
      (check_identity offered is_psk st.selected_psk_identity)
      (check_identity-WhenOk offered is_psk st.selected_psk_identity)
check_hello-WhenOk offered is_psk st (peerkey none) =
    check-WhenOk (IsKeyed (offered || is_psk) (peerkey none))
      (guard (is_supported_version st.found_version) alert_illegal_parameter) _
      (bind_with-WhenOk (IsKeyed (offered || is_psk) (peerkey none))
        (check_identity offered is_psk st.selected_psk_identity) _
        (λ psk e. must psk (
          subst (WhenOk (IsKnown (offered || is_psk))) e
            (check_identity-WhenOk offered is_psk st.selected_psk_identity))))
  where
    must :
        (psk : Bool)
        → IsKnown (offered || is_psk) psk
        → WhenOk
            (IsKeyed (offered || is_psk) (peerkey none))
            (guard psk alert_illegal_parameter >> ok psk)
    must true h = (refl, h)
    must false h = tt

take_session_id-WhenOk : (src : List ℕ) → WhenOk (λ r. length (r.0) ≤ 32) (take_session_id src)
unfolding take_session_id
take_session_id-WhenOk src = go (leb (length src) 32) (leb→le (length src) 32)
  where
    go :
        (b : Bool)
        → (b ≡ true → length src ≤ 32)
        → WhenOk
            (λ (r : List ℕ × List ℕ). length (r.0) ≤ 32)
            (if b then ok (src, []) else err alert_decode_error)
    go true h = h refl
    go false h = tt

find_cipher_suite-some :
    {Cs : Type 0} (o : Option Cs) (cs : Cs) → find_cipher_suite o ≡ ok cs → o ≡ some cs
unfolding find_cipher_suite
find_cipher_suite-some none cs e = cc
find_cipher_suite-some (some c) cs e = cc

is_retry-initial_body :
    (random : List ℕ) → is_retry (initial_body random) ≡ same_bytes random hello_retry_random
unfolding initial_body
is_retry-initial_body random = go (same_bytes random hello_retry_random)
  where
    go : (b : Bool) → is_retry (if b then retry_request uint16_max none else peerkey none) ≡ b
    go true = refl
    go false = refl

module _ {Cs : Type 0} (cs_id : Cs → ℕ) (cipher_suites : List Cs) (on_extension : OnExtension)
    (key_share : Option ℕ) (offered_psk is_psk : Bool) where
  -- What holds of a message that was accepted; `retry` says whether it asks for a retry.
  abbrev pub Sound : Bool → ServerHello Cs → Type 0
  Sound retry r =
      (is_retry r.body ≡ retry)
      × IsKeyed (offered_psk || is_psk) r.body r.is_psk_handshake
      × (length r.legacy_session_id ≤ 32)
      × ((id : ℕ) × (find_id cs_id cipher_suites id ≡ some r.cipher_suite))

  decode_after_random-Sound :
      (retry : Bool) (start : HelloBody) (src : List ℕ)
      → is_retry start ≡ retry
      → WhenOk (Sound retry) (
          decode_after_random cs_id cipher_suites on_extension key_share offered_psk is_psk start
            src)
  unfolding decode_after_random
  decode_after_random-Sound retry start src kind =
      let P = Sound retry in
      let block = server_hello_extension on_extension key_share in
      let st0 : HelloExts = record {
        body = start;
        found_version = uint16_max;
        selected_psk_identity = uint16_max;
      } in
      bind_with-WhenOk P (decode_open_block (bytes 1) take_session_id src) _ (λ s e1.
        bind_with-WhenOk P (decode16 s.1) _ (λ c e2.
          bind_with-WhenOk P (find_cipher_suite (find_id cs_id cipher_suites c.0)) _ (λ cs e3.
            bind_with-WhenOk P (null_compression c.1) _ (λ src3 e4.
              bind_with-WhenOk P (decode_extensions block 2 st0 src3) _ (λ st e5.
                bind_with-WhenOk P (check_hello offered_psk is_psk st st.body) _ (λ psk e6.
                  let inside = decode_open_block-Inside (bytes 1) take_session_id src s.0 s.1 e1 in
                  (
                    decode_extensions-kept block (λ x. is_retry x.body ≡ retry)
                        (kind_kept on_extension key_share retry) 2 st0 st src3 kind e5,
                    subst (WhenOk (IsKeyed (offered_psk || is_psk) st.body)) e6
                        (check_hello-WhenOk offered_psk is_psk st st.body),
                    subst (WhenOk (λ (r : List ℕ × List ℕ). length (r.0) ≤ 32)) inside.3.2
                        (take_session_id-WhenOk (take inside.0 inside.1)),
                    (c.0, find_cipher_suite-some (find_id cs_id cipher_suites c.0) cs e3),
                  )))))))

  -- Whatever the bytes of a ServerHello are, when `decode_server_hello` accepts them: it is taken
  -- for a retry exactly when its random value is the one of a retry; it has a key, or the handshake
  -- is on a pre-shared key, or it is a retry; the handshake is on a pre-shared key only where the
  -- client has offered one or was on one before; the session id has at most 32 bytes; and the
  -- cipher suite is one of the context's.
  pub decode_server_hello-Sound :
      (src : List ℕ) (r : ServerHello Cs)
      → decode_server_hello cs_id cipher_suites on_extension key_share offered_psk is_psk src ≡ ok r
      → Sound (same_bytes (take 32 (drop 2 src)) hello_retry_random) r
  unfolding decode_server_hello
  decode_server_hello-Sound src r e =
      let random : List ℕ = take 32 (drop 2 src) in
      let P = Sound (same_bytes random hello_retry_random) in
      subst (WhenOk P) e (
        check-WhenOk P (guard (leb 2 (length src)) alert_decode_error) _ (
          check-WhenOk P (guard (leb 32 (length (drop 2 src))) alert_decode_error) _ (
            decode_after_random-Sound (same_bytes random hello_retry_random) (initial_body random)
              (drop 32 (drop 2 src)) (is_retry-initial_body random))))
