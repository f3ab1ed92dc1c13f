-- ===== src/Extensions.antt =====
-- The extensions of a message, lib/picotls.c: `extension_bitmap_is_set`, `extension_bitmap_set`,
-- `init_extension_bitmap`, and the macros `decode_open_extensions` and `decode_extensions`, whose
-- `block` is an argument: a function of its state, the type and the body up to the end.
pub mod Bitmap
pub mod Seen
pub mod Distinct
pub mod Pushed
pub mod Invariant
use picotls.Prelude.{
  ℕ, zero, suc, ◌/◌, ◌%◌, ◌^◌, bit_and, bit_or, Bool, false, not, ◌&&◌, ◌||◌, Option, none, some,
  List, [], ◌∷◌, ◌++◌, ltb, ◌==◌, if◌then◌else◌, length, get_or, set, replicate, Result, ok, guard,
  ◌>>=◌, ◌>>◌,
}
use picotls.Code.{alert_illegal_parameter, alert_decode_error}
use picotls.Wire.{bytes, push16, push_block, decode16, decode_open_block, is_empty}
use picotls.Handshake.{
  handshake_type_client_hello, handshake_type_server_hello, handshake_type_new_session_ticket,
  handshake_type_encrypted_extensions, handshake_type_certificate,
  handshake_type_certificate_request,
}

-- `bits`, 8 bytes; only ids below 64 are tracked.
unfoldable pub extension_bitmap_is_set : List ℕ → ℕ → Bool
extension_bitmap_is_set bits id =
    ltb id 64 && not (bit_and (get_or bits (id / 8) 0) (2 ^ (id % 8)) == 0)

unfoldable pub extension_bitmap_set : List ℕ → ℕ → List ℕ
extension_bitmap_set bits id =
    if ltb id 64 then set bits (id / 8) (bit_or (get_or bits (id / 8) 0) (2 ^ (id % 8))) else bits

-- An `EXT(extid, { ALLOW(...); ... })`: the extension, and the messages that may have it.
pub record Ext : Type 0 where
  pub extid : ℕ
  pub allowed : List ℕ

unfoldable pub is_allowed : ℕ → List ℕ → Bool
is_allowed hstype [] = false
is_allowed hstype (h ∷ hs) = hstype == h || is_allowed hstype hs

abbrev pub ext_table : List Ext
ext_table =
    record {
      extid = 0;
      allowed = handshake_type_client_hello ∷ handshake_type_encrypted_extensions ∷ [];
    }
    ∷ record {
      extid = 5;
      allowed =
          handshake_type_client_hello ∷ handshake_type_certificate
          ∷ handshake_type_certificate_request ∷ [];
    }
    ∷ record {
      extid = 10;
      allowed = handshake_type_client_hello ∷ handshake_type_encrypted_extensions ∷ [];
    }
    ∷ record {
      extid = 13;
      allowed = handshake_type_client_hello ∷ handshake_type_certificate_request ∷ [];
    }
    ∷ record {
      extid = 16;
      allowed = handshake_type_client_hello ∷ handshake_type_encrypted_extensions ∷ [];
    }
    ∷ record {
      extid = 51;
      allowed = handshake_type_client_hello ∷ handshake_type_server_hello ∷ [];
    }
    ∷ record {
      extid = 41;
      allowed = handshake_type_client_hello ∷ handshake_type_server_hello ∷ [];
    }
    ∷ record { extid = 45; allowed = handshake_type_client_hello ∷ [] }
    ∷ record {
      extid = 42;
      allowed =
          handshake_type_client_hello ∷ handshake_type_encrypted_extensions
          ∷ handshake_type_new_session_ticket ∷ [];
    }
    ∷ record {
      extid = 44;
      allowed = handshake_type_client_hello ∷ handshake_type_server_hello ∷ [];
    }
    ∷ record {
      extid = 43;
      allowed = handshake_type_client_hello ∷ handshake_type_server_hello ∷ [];
    }
    ∷ []

-- What is not allowed counts as there already.
unfoldable pub forbid : ℕ → List Ext → List ℕ → List ℕ
forbid hstype [] bits = bits
forbid hstype (e ∷ table) bits =
    forbid hstype table
      (if is_allowed hstype e.allowed then bits else extension_bitmap_set bits e.extid)

unfoldable pub init_extension_bitmap : ℕ → List ℕ
init_extension_bitmap hstype = forbid hstype ext_table (replicate 8 0)

unfoldable pub buffer_push_extension : ℕ → List ℕ → List ℕ
buffer_push_extension type body = push16 type ++ push_block (bytes 2) body

-- `(ret = ctx->on_extension->cb(...) != 0)`: what the error path returns is the comparison's value.
unfoldable pub call_on_extension : Option (ℕ → ℕ → List ℕ → ℕ) → ℕ → ℕ → List ℕ → Result (Unit {0})
call_on_extension none hstype exttype body = ok tt
call_on_extension (some cb) hstype exttype body = guard (cb hstype exttype body == 0) 1

module _ {ℓ} {A : Type ℓ} (block : A → ℕ → List ℕ → Result (A × List ℕ)) where
  -- The loop; every round takes four bytes at least, so that the length of the input is enough fuel.
  unfoldable pub extension_rounds : ℕ → List ℕ → A → List ℕ → Result (A × List ℕ)
  extension_rounds zero bits a src = ok (a, src)
  extension_rounds (suc rounds) bits a [] = ok (a, [])
  extension_rounds (suc rounds) bits a (b ∷ src) = do
    (exttype, body) ← decode16 (b ∷ src)
    guard (not (extension_bitmap_is_set bits exttype)) alert_illegal_parameter
    (a', rest) ← decode_open_block (bytes 2) (block a exttype) body
    extension_rounds rounds (extension_bitmap_set bits exttype) a' rest

  unfoldable pub decode_open_extensions : ℕ → A → List ℕ → Result (A × List ℕ)
  decode_open_extensions hstype a src =
      decode_open_block (bytes 2)
        (λ body. extension_rounds (length body) (init_extension_bitmap hstype) a body) src

  unfoldable pub decode_extensions : ℕ → A → List ℕ → Result A
  decode_extensions hstype a src = do
    (a', rest) ← decode_open_extensions hstype a src
    guard (is_empty rest) alert_decode_error
    ok a'
