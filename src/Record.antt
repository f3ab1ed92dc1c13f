-- ===== src/Record.antt =====
-- The record layer's input side, lib/picotls.c: `parse_record_header` and `parse_record`.
-- `tls->recvbuf.rec` is `none` while its base is NULL, and otherwise the bytes up to `off`.
-- Memory enters as `grow off delta`: whether `ptls_buffer_reserve` finds room for `delta` bytes.
pub mod Framing
pub mod Chunks
use picotls.Prelude.{
  ℕ, ◌+◌, ◌-◌, ◌%◌, ◌^◌, Bool, true, not, ◌&&◌, Option, none, some, List, [], ◌∷◌, ◌++◌, ltb, leb,
  ◌==◌, if◌then◌else◌, length, get_or, take, drop,
}
use picotls.Code.{alert_decode_error, error_in_progress, error_no_memory}
use picotls.Wire.{ntoh16}

abbrev pub max_plaintext_record_size : ℕ
max_plaintext_record_size = 16384

abbrev pub max_encrypted_record_size : ℕ
max_encrypted_record_size = 16384 + 256

abbrev pub content_type_change_cipher_spec : ℕ
content_type_change_cipher_spec = 20

abbrev pub content_type_alert : ℕ
content_type_alert = 21

abbrev pub content_type_handshake : ℕ
content_type_handshake = 22

abbrev pub content_type_appdata : ℕ
content_type_appdata = 23

-- `struct st_ptls_record_t`; a NULL fragment is `none`.
pub record Rec : Type 0 where
  pub type : ℕ
  pub version : ℕ
  pub length : ℕ
  pub fragment : Option (List ℕ)

abbrev pub zero_rec : Rec
zero_rec = record { type = 0; version = 0; length = 0; fragment = none }

-- What `*rec`, the return value, `tls->recvbuf.rec` and `*len` hold after a call.
pub record Parsed : Type 0 where
  pub rec : Rec
  pub ret : ℕ
  pub recvbuf : Option (List ℕ)
  pub consumed : ℕ

abbrev pub size_limit : ℕ → ℕ
size_limit type =
    if type == content_type_appdata then max_encrypted_record_size else max_plaintext_record_size

unfoldable pub header_fields : List ℕ → Rec
header_fields src = record {
  type = get_or src 0 0;
  version = ntoh16 (get_or src 1 0) (get_or src 2 0);
  length = ntoh16 (get_or src 3 0) (get_or src 4 0);
  fragment = none;
}

unfoldable pub parse_record_header : List ℕ → Rec × ℕ
parse_record_header src =
    let rec = header_fields src in
    (rec, if ltb (size_limit rec.type) rec.length then alert_decode_error else 0)

-- `while (off < 5) { if (src == end) return IN_PROGRESS; base[off++] = *src++; }`: the buffer, what
-- is left of the input, and whether the loop ended by its test.
unfoldable pub fill_header : List ℕ → List ℕ → List ℕ × List ℕ × Bool
fill_header buf [] = (buf, [], not (ltb (length buf) 5))
fill_header buf (b ∷ src) =
    if ltb (length buf) 5 then fill_header (buf ++ b ∷ []) src else (buf, b ∷ src, true)

-- `rec->fragment` is set if the record is complete. `total` is the value of `*len` at the call, and
-- `left` the input that is not used.
unfoldable pub finish_fragment : ℕ → Rec → List ℕ → List ℕ → Parsed
finish_fragment total rec buf left =
    if length buf == rec.length + 5
    then record {
      rec = record rec { fragment = some (take rec.length (drop 5 buf)) };
      ret = 0;
      recvbuf = some buf;
      consumed = total - length left;
    }
    else record {
      rec = rec;
      ret = error_in_progress;
      recvbuf = some buf;
      consumed = total - length left;
    }

-- `rec->length + 5 - tls->recvbuf.rec.off`, in a size_t.
unfoldable pub missing : ℕ → ℕ → ℕ
missing len off = (len + 5 + 2 ^ 64 - off) % 2 ^ 64

-- The fragment's part of the slow path.
unfoldable pub fill_fragment : (ℕ → ℕ → Bool) → ℕ → List ℕ → List ℕ → Parsed
unfolding parse_record_header finish_fragment
fill_fragment grow total buf src =
    let (rec, ret) = parse_record_header buf in
    if not (ret == 0)
    then record { rec = rec; ret = ret; recvbuf = some buf; consumed = total }
    else let addlen = missing rec.length (length buf) in
      if not (addlen == 0) && not (grow (length buf) addlen)
      then record { rec = rec; ret = error_no_memory; recvbuf = some buf; consumed = total }
      else finish_fragment total rec (buf ++ take addlen src) (drop addlen src)

unfoldable pub slow_path : (ℕ → ℕ → Bool) → List ℕ → List ℕ → Parsed
unfolding fill_header fill_fragment
slow_path grow buf src =
    let (header, left, full) = fill_header buf src in
    if full then fill_fragment grow (length src) header left else record {
      rec = zero_rec;
      ret = error_in_progress;
      recvbuf = some header;
      consumed = length src;
    }

-- A buffer that is not there yet is set up first, with room for a header.
unfoldable pub start_slow_path : (ℕ → ℕ → Bool) → Option (List ℕ) → List ℕ → Parsed
unfolding slow_path
start_slow_path grow (some buf) src = slow_path grow buf src
start_slow_path grow none src =
    if grow 0 5
    then slow_path grow [] src
    else record { rec = zero_rec; ret = error_no_memory; recvbuf = some []; consumed = length src }

unfoldable pub parse_record : (ℕ → ℕ → Bool) → Option (List ℕ) → List ℕ → Parsed
unfolding start_slow_path parse_record_header
parse_record grow (some buf) src = start_slow_path grow (some buf) src
parse_record grow none src =
    if ltb (length src) 5
    then start_slow_path grow none src
    else let (rec, ret) = parse_record_header src in
      if not (ret == 0)
      then record { rec = rec; ret = ret; recvbuf = none; consumed = length src }
      else if leb (5 + rec.length) (length src)
      then record {
        rec = record rec { fragment = some (take rec.length (drop 5 src)) };
        ret = 0;
        recvbuf = none;
        consumed = rec.length + 5;
      }
      else start_slow_path grow none src
