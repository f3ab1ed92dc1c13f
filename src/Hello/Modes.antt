-- ===== src/Hello/Modes.antt =====
-- The ServerHello of each handshake mode, extension by extension.
use picotls.Prelude.{
  ℕ, ◌+◌, ◌^◌, ◌<◌, ◌≡◌, refl, ap, ◌∙◌, sym, false, Option, some, List, [], append-nil, length,
  length-append, ==_self, ok, arith,
}
use picotls.Wire.{bytes, decode16, push16, push_block, block_prefix}
use picotls.Wire.Integers.{decode-push, length-low_bytes}
use picotls.Wire.Blocks.{decode_block-body}
use picotls.Extensions.{
  extension_bitmap_is_set, extension_bitmap_set, init_extension_bitmap, forbid, is_allowed,
  buffer_push_extension,
}
use picotls.Hello.{
  HelloBody, peerkey, HelloExts, push_key_share_entry, decode_key_share_entry, is_own_group,
  version_extension, key_share_extension, psk_extension, hello_extension,
}

abbrev pub state : HelloBody → ℕ → ℕ → HelloExts
state body v identity = record { body = body; found_version = v; selected_psk_identity = identity }

pub decode16-push16_only : (v : ℕ) → v < 2 ^ 16 → decode16 (push16 v) ≡ ok (v, [])
decode16-push16_only v h = ap decode16 (sym (append-nil (push16 v))) ∙ (decode-push v []).0 h

pub length-push16 : (v : ℕ) → length (push16 v) ≡ 2
unfolding push16
length-push16 v = refl

pub length-buffer_push_extension :
    (t : ℕ) (body : List ℕ) → length (buffer_push_extension t body) ≡ 4 + length body
unfolding buffer_push_extension push_block block_prefix
length-buffer_push_extension t body = omega (
  arith,
  length-append (push16 t) (push_block (bytes 2) body),
  length-push16 t,
  length-append (block_prefix (bytes 2) (length body)) body,
  length-low_bytes 2 (length body),
)

pub length-push_key_share_entry :
    (group : ℕ) (key : List ℕ) → length (push_key_share_entry group key) ≡ 4 + length key
unfolding push_key_share_entry push_block block_prefix
length-push_key_share_entry group key = omega (
  arith,
  length-append (push16 group) (push_block (bytes 2) key),
  length-push16 group,
  length-append (block_prefix (bytes 2) (length key)) key,
  length-low_bytes 2 (length key),
)

decode_key_share_entry-push :
    (group : ℕ) (key : List ℕ)
    → group < 2 ^ 16
    → length key < 2 ^ 16
    → decode_key_share_entry (push_key_share_entry group key) ≡ ok ((group, key), [])
unfolding decode_key_share_entry push_key_share_entry
decode_key_share_entry-push group key hg hk =
    rw ((decode-push group (push_block (bytes 2) key)).0 hg)
      (rw (decode_block-body (bytes 2) (λ src. ok (src, [])) key key (hk, omega arith) refl).0 refl)

pub version_step :
    (key_share : Option ℕ) (body : HelloBody) (v w identity : ℕ)
    → v < 2 ^ 16
    → hello_extension key_share (state body w identity) 43 (push16 v)
      ≡ ok (state body v identity, [])
unfolding hello_extension version_extension
version_step key_share body v w identity h = rw (decode16-push16_only v h) refl

pub key_share_step :
    (group : ℕ) (key : List ℕ) (held : Option (List ℕ)) (v identity : ℕ)
    → group < 2 ^ 16
    → length key < 2 ^ 16
    → hello_extension
        (some group)
        (state (peerkey held) v identity)
        51
        (push_key_share_entry group key)
      ≡ ok (state (peerkey (some key)) v identity, [])
unfolding hello_extension key_share_extension is_own_group
key_share_step group key held v identity hg hk =
    rw (decode_key_share_entry-push group key hg hk) (rw (==_self group) refl)

pub psk_step :
    (key_share : Option ℕ) (held : Option (List ℕ)) (v w identity : ℕ)
    → identity < 2 ^ 16
    → hello_extension key_share (state (peerkey held) v w) 41 (push16 identity)
      ≡ ok (state (peerkey held) v identity, [])
unfolding hello_extension psk_extension
psk_step key_share held v w identity h = rw (decode16-push16_only identity h) refl

pub version_free : extension_bitmap_is_set (init_extension_bitmap 2) 43 ≡ false
unfolding extension_bitmap_is_set init_extension_bitmap forbid is_allowed extension_bitmap_set
version_free = refl

pub key_share_free :
    extension_bitmap_is_set (extension_bitmap_set (init_extension_bitmap 2) 43) 51 ≡ false
unfolding extension_bitmap_is_set init_extension_bitmap forbid is_allowed extension_bitmap_set
key_share_free = refl

pub psk_free :
    extension_bitmap_is_set (extension_bitmap_set (init_extension_bitmap 2) 43) 41 ≡ false
unfolding extension_bitmap_is_set init_extension_bitmap forbid is_allowed extension_bitmap_set
psk_free = refl

pub psk_free_last :
    extension_bitmap_is_set
      (extension_bitmap_set (extension_bitmap_set (init_extension_bitmap 2) 43) 51)
      41
    ≡ false
unfolding extension_bitmap_is_set init_extension_bitmap forbid is_allowed extension_bitmap_set
psk_free_last = refl
