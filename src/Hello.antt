-- ===== src/Hello.antt =====
-- The ServerHello message, lib/picotls.c: `decode_server_hello` with `find_cipher_suite`,
-- `is_supported_version`, `push_key_share_entry` and `decode_key_share_entry`; and what
-- `server_handle_hello` pushes for it, EMIT_SERVER_HELLO and EMIT_HELLO_RETRY_REQUEST. The
-- parameters: the callback `on_extension`, the cipher suites of the context with their ids.
pub mod Sent
pub mod Modes
pub mod Chosen
pub mod RoundTrip
pub mod Kind
pub mod Accepted
use picotls.Prelude.{
  ℕ, ◌%◌, ◌^◌, Bool, true, false, ◌||◌, Option, none, some, List, [], ◌∷◌, ◌++◌, leb, ◌==◌,
  if◌then◌else◌, length, take, drop, Result, ok, err, guard, ◌>>=◌, ◌>>◌,
}
use picotls.Prelude.Compare.{same_bytes}
use picotls.Code.{alert_decode_error, alert_illegal_parameter}
use picotls.Wire.{
  bytes, decode16, push16, push_block, decode_open_block, decode_block, take_all, is_empty,
}
use picotls.Extensions.{buffer_push_extension, call_on_extension, decode_extensions}
use picotls.Handshake.{handshake_type_server_hello}
use picotls.Ticket.{OnExtension, take_some, find_id}

abbrev pub extension_type_pre_shared_key : ℕ
extension_type_pre_shared_key = 41

abbrev pub extension_type_supported_versions : ℕ
extension_type_supported_versions = 43

abbrev pub extension_type_cookie : ℕ
extension_type_cookie = 44

abbrev pub extension_type_key_share : ℕ
extension_type_key_share = 51

abbrev pub uint16_max : ℕ
uint16_max = 65535

abbrev pub hello_retry_random : List ℕ
hello_retry_random =
    0xcf ∷ 0x21 ∷ 0xad ∷ 0x74 ∷ 0xe5 ∷ 0x9a ∷ 0x61 ∷ 0x11 ∷ 0xbe ∷ 0x1d ∷ 0x8c ∷ 0x02 ∷ 0x1e ∷ 0x65
    ∷ 0xb8 ∷ 0x91 ∷ 0xc2 ∷ 0xa2 ∷ 0x11 ∷ 0x16 ∷ 0x7a ∷ 0xbb ∷ 0x8c ∷ 0x5e ∷ 0x07 ∷ 0x9e ∷ 0x09
    ∷ 0xe2 ∷ 0xc8 ∷ 0xa8 ∷ 0x33 ∷ 0x9c ∷ []

abbrev pub supported_versions : List ℕ
supported_versions = 0x0304 ∷ 0x7f1c ∷ 0x7f1b ∷ 0x7f1a ∷ []

unfoldable pub is_among : ℕ → List ℕ → Bool
is_among v [] = false
is_among v (w ∷ ws) = w == v || is_among v ws

unfoldable pub is_supported_version : ℕ → Bool
unfolding is_among
is_supported_version v = is_among v supported_versions

unfoldable pub push_key_share_entry : ℕ → List ℕ → List ℕ
push_key_share_entry group pubkey = push16 group ++ push_block (bytes 2) pubkey

-- The group and the key.
unfoldable pub decode_key_share_entry : List ℕ → Result ((ℕ × List ℕ) × List ℕ)
decode_key_share_entry src = do
  (group, src1) ← decode16 src
  (key, src2) ← decode_open_block (bytes 2) take_all src1
  ok ((group, key), src2)

-- The union in `struct st_ptls_server_hello_t`, by `is_retry_request`; `none` is a NULL base.
pub data HelloBody : Type 0 where
  peerkey : Option (List ℕ) → HelloBody
  retry_request : (selected_group : ℕ) → (cookie : Option (List ℕ)) → HelloBody

-- What the loop over the extensions sets.
pub record HelloExts : Type 0 where
  pub body : HelloBody
  pub found_version : ℕ
  pub selected_psk_identity : ℕ

-- What `decode_server_hello` sets: the fields of `sh`, and of the connection its cipher suite and
-- `is_psk_handshake`. An error gives its code alone, though the suite may have been set before it.
pub record ServerHello (Cs : Type 0) : Type 0 where
  pub legacy_session_id : List ℕ
  pub body : HelloBody
  pub cipher_suite : Cs
  pub is_psk_handshake : Bool

-- `key_share != NULL && key_share->id == group`
unfoldable pub is_own_group : Option ℕ → ℕ → Bool
is_own_group none group = false
is_own_group (some id) group = id == group

unfoldable pub version_extension : HelloExts → List ℕ → Result (HelloExts × List ℕ)
version_extension st src = do (v, rest) ← decode16 src; ok (record st { found_version = v }, rest)

unfoldable pub key_share_extension :
    Option ℕ → HelloExts → HelloBody → List ℕ → Result (HelloExts × List ℕ)
unfolding is_own_group
key_share_extension key_share st (retry_request _ cookie) src = do
  (group, rest) ← decode16 src
  ok (record st { body = retry_request group cookie }, rest)
key_share_extension key_share st (peerkey _) src = do
  (entry, rest) ← decode_key_share_entry src
  guard (is_empty rest) alert_decode_error
  guard (is_own_group key_share entry.0) alert_illegal_parameter
  ok (record st { body = peerkey (some entry.1) }, rest)

unfoldable pub cookie_extension : HelloExts → HelloBody → List ℕ → Result (HelloExts × List ℕ)
cookie_extension st (retry_request group _) src = do
  (cookie, rest) ← decode_block (bytes 2) take_some src
  ok (record st { body = retry_request group (some cookie) }, rest)
cookie_extension st (peerkey _) src = err alert_illegal_parameter

unfoldable pub psk_extension : HelloExts → HelloBody → List ℕ → Result (HelloExts × List ℕ)
psk_extension st (retry_request _ _) src = err alert_illegal_parameter
psk_extension st (peerkey _) src = do
  (identity, rest) ← decode16 src
  ok (record st { selected_psk_identity = identity }, rest)

-- The `switch` over the type.
unfoldable pub hello_extension : Option ℕ → HelloExts → ℕ → List ℕ → Result (HelloExts × List ℕ)
hello_extension key_share st exttype src =
    if exttype == extension_type_supported_versions
    then version_extension st src
    else if exttype == extension_type_key_share
    then key_share_extension key_share st st.body src
    else if exttype == extension_type_cookie
    then cookie_extension st st.body src
    else if exttype == extension_type_pre_shared_key
    then psk_extension st st.body src
    else ok (st, [])

unfoldable pub server_hello_extension :
    OnExtension → Option ℕ → HelloExts → ℕ → List ℕ → Result (HelloExts × List ℕ)
server_hello_extension on_extension key_share st exttype src =
    call_on_extension on_extension handshake_type_server_hello exttype src
    >> hello_extension key_share st exttype src

-- The block of the session id.
unfoldable pub take_session_id : List ℕ → Result (List ℕ × List ℕ)
take_session_id src = if leb (length src) 32 then ok (src, []) else err alert_decode_error

unfoldable pub null_compression : List ℕ → Result (List ℕ)
null_compression [] = err alert_illegal_parameter
null_compression (b ∷ src) = if b == 0 then ok src else err alert_illegal_parameter

-- An id that the context does not have is an illegal parameter.
unfoldable pub find_cipher_suite : {Cs : Type 0} → Option Cs → Result Cs
find_cipher_suite none = err alert_illegal_parameter
find_cipher_suite (some cs) = ok cs

-- `is_psk_handshake` after the check of the identity; UINT16_MAX stands for no extension.
unfoldable pub check_identity : Bool → Bool → ℕ → Result Bool
check_identity offered_psk is_psk identity =
    if identity == uint16_max
    then ok is_psk
    else (guard offered_psk alert_illegal_parameter
        >> guard (identity == 0) alert_illegal_parameter)
      >> ok true

-- The checks behind the loop.
unfoldable pub check_hello : Bool → Bool → HelloExts → HelloBody → Result Bool
unfolding check_identity
check_hello offered_psk is_psk st (retry_request _ _) =
    guard (is_supported_version st.found_version) alert_illegal_parameter >> ok is_psk
check_hello offered_psk is_psk st (peerkey (some key)) =
    guard (is_supported_version st.found_version) alert_illegal_parameter
    >> check_identity offered_psk is_psk st.selected_psk_identity
check_hello offered_psk is_psk st (peerkey none) = do
  guard (is_supported_version st.found_version) alert_illegal_parameter
  psk ← check_identity offered_psk is_psk st.selected_psk_identity
  guard psk alert_illegal_parameter
  ok psk

-- The union at the start of the loop, for the random value of the message.
unfoldable pub initial_body : List ℕ → HelloBody
initial_body random =
    if same_bytes random hello_retry_random then retry_request uint16_max none else peerkey none

module _ {Cs : Type 0} (cs_id : Cs → ℕ) (cipher_suites : List Cs) (on_extension : OnExtension)
    (key_share : Option ℕ) (offered_psk is_psk : Bool) where
  -- Behind the random value.
  unfoldable pub decode_after_random : HelloBody → List ℕ → Result (ServerHello Cs)
  unfolding take_session_id null_compression find_cipher_suite check_hello server_hello_extension
  decode_after_random start src = do
    (session_id, src1) ← decode_open_block (bytes 1) take_session_id src
    (csid, src2) ← decode16 src1
    cs ← find_cipher_suite (find_id cs_id cipher_suites csid)
    src3 ← null_compression src2
    st ←
        decode_extensions (server_hello_extension on_extension key_share)
          handshake_type_server_hello
          (record { body = start; found_version = uint16_max; selected_psk_identity = uint16_max })
          src3
    psk ← check_hello offered_psk is_psk st st.body
    ok (record {
      legacy_session_id = session_id;
      body = st.body;
      cipher_suite = cs;
      is_psk_handshake = psk;
    })

  -- The legacy version is not looked at.
  unfoldable pub decode_server_hello : List ℕ → Result (ServerHello Cs)
  unfolding initial_body decode_after_random
  decode_server_hello src = do
    guard (leb 2 (length src)) alert_decode_error
    guard (leb 32 (length (drop 2 src))) alert_decode_error
    decode_after_random (initial_body (take 32 (drop 2 src))) (drop 32 (drop 2 src))

-- EMIT_SERVER_HELLO, for the bytes that `extensions` pushes.
unfoldable pub push_server_hello : List ℕ → List ℕ → ℕ → ℕ → List ℕ → List ℕ
push_server_hello random session_id csid selected_version extensions =
    push16 0x0303
    ++ (random
        ++ (push_block (bytes 1) session_id
            ++ (push16 csid
                ++ (0
                    ∷ push_block (bytes 2) (
                        buffer_push_extension extension_type_supported_versions
                          (push16 selected_version)
                        ++ extensions)))))

pub data HandshakeMode : Type 0 where
  full : HandshakeMode
  psk : HandshakeMode
  psk_dhe : HandshakeMode

-- The extensions of a ServerHello that is no retry.
unfoldable pub mode_extensions : HandshakeMode → ℕ → List ℕ → ℕ → List ℕ
mode_extensions full group pubkey psk_index =
    buffer_push_extension extension_type_key_share (push_key_share_entry group pubkey)
mode_extensions psk group pubkey psk_index =
    buffer_push_extension extension_type_pre_shared_key (push16 (psk_index % 2 ^ 16))
mode_extensions psk_dhe group pubkey psk_index =
    buffer_push_extension extension_type_key_share (push_key_share_entry group pubkey)
    ++ buffer_push_extension extension_type_pre_shared_key (push16 (psk_index % 2 ^ 16))

-- The extensions of EMIT_HELLO_RETRY_REQUEST, in front of `additional_extensions`.
unfoldable pub group_extension : Option ℕ → List ℕ
group_extension none = []
group_extension (some group) = buffer_push_extension extension_type_key_share (push16 group)

unfoldable pub push_hello_retry_request : List ℕ → ℕ → ℕ → Option ℕ → List ℕ → List ℕ
unfolding push_server_hello group_extension
push_hello_retry_request session_id csid selected_version negotiated_group additional =
    push_server_hello hello_retry_random session_id csid selected_version
      (group_extension negotiated_group ++ additional)
