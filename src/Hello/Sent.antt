-- ===== src/Hello/Sent.antt =====
-- A ServerHello message is read as the server built it: what its parts have in common.
use picotls.Prelude.{
  ℕ, suc, ◌^◌, ◌≤◌, ◌<◌, ◌≡◌, refl, sym, ap, ◌∙◌, Bool, Option, some, List, [], ◌∷◌, ◌++◌, length,
  length-append, le→leb, take, drop, take-append_length, drop-append_length, ok, arith,
}
use mathlib.Core.Path.{subst}
use picotls.Wire.{bytes, push16, push_block}
use picotls.Wire.Integers.{decode-push}
use picotls.Wire.Blocks.{decode_open_block-body}
use picotls.Extensions.{
  buffer_push_extension, call_on_extension, init_extension_bitmap, decode_extensions,
}
use picotls.Extensions.Pushed.{push_extensions, Reads, decode_extensions-push_extensions}
use picotls.Ticket.{OnExtension, find_id}
use picotls.Hello.{
  HelloExts, take_session_id, null_compression, find_cipher_suite, server_hello_extension,
  hello_extension, check_hello, initial_body, decode_after_random, decode_server_hello,
  push_server_hello, uint16_max, extension_type_supported_versions,
}

take-exact :
    (n : ℕ) (xs ys : List ℕ) → length xs ≡ n → (take n (xs ++ ys) ≡ xs) × (drop n (xs ++ ys) ≡ ys)
take-exact n xs ys h = (
  ap (λ (m : ℕ). take m (xs ++ ys)) (sym h) ∙ take-append_length xs ys,
  ap (λ (m : ℕ). drop m (xs ++ ys)) (sym h) ∙ drop-append_length xs ys,
)

push16-legacy : (src : List ℕ) → push16 0x0303 ++ src ≡ 3 ∷ 3 ∷ src
unfolding push16
push16-legacy src = refl

take_session_id_lem : (src : List ℕ) → length src ≤ 32 → take_session_id src ≡ ok (src, [])
unfolding take_session_id
take_session_id_lem src h = rw (le→leb (length src) 32 h) refl

-- The callback lets every extension of the message pass.
abbrev pub LetsAll : OnExtension → Type 0
LetsAll on_extension = (t : ℕ) (body : List ℕ) → call_on_extension on_extension 2 t body ≡ ok tt

pub server_hello_extension-passed :
    (on_extension : OnExtension) (key_share : Option ℕ) (st : HelloExts) (t : ℕ) (body : List ℕ)
    → LetsAll on_extension
    → server_hello_extension on_extension key_share st t body ≡ hello_extension key_share st t body
unfolding server_hello_extension
server_hello_extension-passed on_extension key_share st t body lets = rw (lets t body) refl

module _ {Cs : Type 0} (cs_id : Cs → ℕ) (cipher_suites : List Cs) (on_extension : OnExtension)
    (key_share : Option ℕ) (offered_psk is_psk : Bool) where
  decode_server_hello-random :
      (random src : List ℕ)
      → length random ≡ 32
      → decode_server_hello cs_id cipher_suites on_extension key_share offered_psk is_psk
          (3 ∷ 3 ∷ (random ++ src))
        ≡ decode_after_random cs_id cipher_suites on_extension key_share offered_psk is_psk
            (initial_body random)
            src
  unfolding decode_server_hello
  decode_server_hello-random random src size =
      rw
        (
          le→leb 2 (suc (suc (length (random ++ src)))) (omega arith),
          le→leb 32 (length (random ++ src)) (omega (arith, length-append random src, size)),
        )
        (rw (take-exact 32 random src size).0 (rw (take-exact 32 random src size).1 refl))

  -- The start of the loop over the extensions.
  abbrev pub start_of : List ℕ → HelloExts
  start_of random = record {
    body = initial_body random;
    found_version = uint16_max;
    selected_psk_identity = uint16_max;
  }

  pub decode_server_hello-push_server_hello :
      (random session_id : List ℕ) (cs : Cs) (v : ℕ) (extra : List ℕ) (es : List (ℕ × List ℕ))
      (st : HelloExts) (psk : Bool)
      → length random ≡ 32
      → length session_id ≤ 32
      → find_id cs_id cipher_suites (cs_id cs) ≡ some cs
      → cs_id cs < 2 ^ 16
      → push_extensions es
        ≡ buffer_push_extension extension_type_supported_versions (push16 v) ++ extra
      → length (push_extensions es) < 2 ^ 16
      → Reads
          (server_hello_extension on_extension key_share)
          (init_extension_bitmap 2)
          (start_of random)
          es
          st
      → check_hello offered_psk is_psk st st.body ≡ ok psk
      → decode_server_hello cs_id cipher_suites on_extension key_share offered_psk is_psk
          (push_server_hello random session_id (cs_id cs) v extra)
        ≡ ok (record {
          legacy_session_id = session_id;
          body = st.body;
          cipher_suite = cs;
          is_psk_handshake = psk;
        })
  unfolding push_server_hello decode_after_random find_cipher_suite null_compression
  decode_server_hello-push_server_hello random session_id cs v extra es st psk size id_size has
        small same fits reads checked =
      let tail3 : List ℕ =
        push_block (bytes 2)
          (buffer_push_extension extension_type_supported_versions (push16 v) ++ extra) in
      let tail2 : List ℕ = push16 (cs_id cs) ++ (0 ∷ tail3) in
      let tail1 : List ℕ = push_block (bytes 1) session_id ++ tail2 in
      let exts =
        subst
          (λ (e : List ℕ).
            decode_extensions (server_hello_extension on_extension key_share) 2 (start_of random)
              (push_block (bytes 2) e)
            ≡ ok st)
          same
          (decode_extensions-push_extensions (server_hello_extension on_extension key_share) 2
            (start_of random) st es fits reads) in
      ap (decode_server_hello cs_id cipher_suites on_extension key_share offered_psk is_psk)
        (push16-legacy (random ++ tail1))
      ∙ decode_server_hello-random random tail1 size
      ∙ rw
          (decode_open_block-body (bytes 1) take_session_id session_id tail2 session_id
            (omega (arith, id_size), omega arith) (take_session_id_lem session_id id_size))
          (rw ((decode-push (cs_id cs) (0 ∷ tail3)).0 small) (rw has (rw exts (rw checked refl))))
