-- ===== src/Send.antt =====
-- The output side of a connection, lib/picotls.c: `buffer_encrypt_record`, the record message emitter
-- (`begin_record_message`, `commit_record_message`), `update_traffic_key`, `update_send_key`,
-- `ptls_send`, `ptls_update_key` and `ptls_send_alert`. A send buffer is the list of its bytes up to
-- `off`, and memory for it is there. The parameters: the AEAD `a`, what `ptls_aead_new` makes of a
-- secret (`new_aead`, `none` for NULL), and `expand`, the `hkdf_expand_label` with "traffic upd"
-- over the hash. `update_traffic_key` of the context is NULL: the library's own record layer.
pub mod Encrypt
pub mod Update
use picotls.Prelude.{
  ℕ, ◌+◌, ◌-◌, ◌/◌, ◌%◌, Bool, true, false, Option, none, some, List, [], ◌∷◌, ◌++◌, leb, ◌==◌,
  if◌then◌else◌, length, get_or, set, take, drop, Result, ok, err,
}
use picotls.Code.{error_no_memory}
use picotls.Wire.{push_block, bytes}
use picotls.Record.{
  max_plaintext_record_size, content_type_alert, content_type_appdata, content_type_handshake,
}
use picotls.Protect.{
  Aead, Protection, record_version_major, record_version_minor, push_record, aead_encrypt,
  buffer_push_encrypted_records,
}
use picotls.Handshake.{State, state_number, client_expect_finished, handshake_type_key_update}

-- What `ptls_send` and its callees read and write of the connection.
pub record Sender (Ctx : Type 0) : Type 0 where
  pub state : State
  pub enc : Protection Ctx
  pub needs_key_update : Bool
  pub key_update_send_request : Bool

-- The connection, the send buffer, and the return value after a call.
pub record Sent (Ctx : Type 0) : Type 0 where
  pub tls : Sender Ctx
  pub buf : List ℕ
  pub ret : ℕ

-- `self->rec_start = buf->off`, and a header with its length still to be written.
unfoldable pub begin_record_message : List ℕ → ℕ × List ℕ
begin_record_message buf = (
  length buf,
  buf ++ content_type_handshake ∷ record_version_major ∷ record_version_minor ∷ 0 ∷ 0 ∷ [],
)

-- `ptls_buffer_push_message_body` without a key schedule.
unfoldable pub message_body : ℕ → List ℕ → List ℕ
message_body type body = type ∷ push_block (bytes 3) body

-- The length field of the plaintext record that starts at `rec_start`.
unfoldable pub set_record_length : ℕ → List ℕ → List ℕ
set_record_length rec_start buf =
    let sz = length buf - rec_start - 5 in
    set (set buf (rec_start + 3) (sz / 256 % 256)) (rec_start + 4) (sz % 256)

module _ {Ctx : Type 0} (a : Aead Ctx) where
  -- The record at the end of `buf`, from `rec_start` on, encrypted with `k` at `seq`.
  unfoldable pub buffer_encrypt_record : Ctx → ℕ → ℕ → List ℕ → List ℕ × ℕ
  buffer_encrypt_record k seq rec_start buf =
      let body = drop (rec_start + 5) buf in
      let type = get_or buf rec_start 0 in
      let sealed = aead_encrypt a k seq body type in
      let pushed = buffer_push_encrypted_records a k seq type body in
      if leb (length body) max_plaintext_record_size
      then (
        take rec_start buf
            ++ content_type_appdata
              ∷ get_or buf (rec_start + 1) 0
              ∷ get_or buf (rec_start + 2) 0
              ∷ (length sealed.0 / 256 % 256)
              ∷ (length sealed.0 % 256)
              ∷ sealed.0,
        sealed.1,
      )
      else (take rec_start buf ++ pushed.0, pushed.1)

  -- The buffer and the protection after the call.
  unfoldable pub encrypt_with : Protection Ctx → Ctx → ℕ → List ℕ → List ℕ × Protection Ctx
  encrypt_with enc k rec_start buf =
      let out = buffer_encrypt_record k enc.seq rec_start buf in (out.0, record enc { seq = out.1 })

  -- Without a key, the source asserts that the message fits one record.
  unfoldable pub commit_record_message : Protection Ctx → ℕ → List ℕ → List ℕ × Protection Ctx
  unfolding encrypt_with
  commit_record_message enc rec_start buf = elim enc.aead [
    | some k ↦ encrypt_with enc k rec_start buf
    | none ↦ (set_record_length rec_start buf, enc)
  ]

  -- `ptls_push_message` through the record emitter.
  unfoldable pub push_message : Protection Ctx → List ℕ → ℕ → List ℕ → List ℕ × Protection Ctx
  push_message enc buf type body =
      let begun = begin_record_message buf in
      commit_record_message enc begun.0 (begun.1 ++ message_body type body)

  unfoldable pub send_alert : Sender Ctx → List ℕ → ℕ → ℕ → Sent Ctx
  send_alert tls buf level description =
      let buf' = buf ++ push_record content_type_alert (level ∷ description ∷ []) in
      let plain : Sent Ctx = record { tls = tls; buf = buf'; ret = 0 } in
      elim tls.enc.aead [
        | none ↦ plain
        | some k ↦
            let (out, enc) = encrypt_with tls.enc k (length buf) buf' in
            if leb (state_number tls.state) (state_number client_expect_finished)
            then plain
            else record { tls = record tls { enc = enc }; buf = out; ret = 0 }
      ]

  module _ (expand : List ℕ → Result (List ℕ)) (new_aead : List ℕ → Option Ctx) where
    -- `setup_traffic_protection(tls, is_enc, NULL, 3, 1)`
    unfoldable pub setup_traffic_protection : Protection Ctx → Protection Ctx × ℕ
    setup_traffic_protection tp = elim (new_aead tp.secret) [
      | some k ↦ (record tp { epoch = 3; aead = some k; seq = 0 }, 0)
      | none ↦ (record tp { epoch = 3; aead = none }, error_no_memory)
    ]

    unfoldable pub update_traffic_key : Protection Ctx → Protection Ctx × ℕ
    unfolding setup_traffic_protection
    update_traffic_key tp = elim (expand tp.secret) [
      | err code ↦ (tp, code)
      | ok secret ↦ setup_traffic_protection (record tp { secret = secret })
    ]

    -- `!!request_update` is the message's one byte.
    unfoldable pub update_send_key : Sender Ctx → List ℕ → Bool → Sent Ctx
    update_send_key tls buf request_update =
        let pushed =
          push_message tls.enc buf handshake_type_key_update
            ((if request_update then 1 else 0) ∷ []) in
        let updated = update_traffic_key pushed.1 in
        record {
          tls = record tls { enc = updated.0 };
          buf = if updated.1 == 0 then pushed.0 else buf;
          ret = updated.1;
        }

    -- The records of `ptls_send`'s last line; `aead` is not NULL there, which its caller and
    -- `setup_traffic_protection` see to.
    unfoldable pub push_data : Sender Ctx → List ℕ → List ℕ → Sent Ctx
    push_data tls buf input = elim tls.enc.aead [
      | none ↦ record { tls = tls; buf = buf; ret = 0 }
      | some k ↦
          let out = buffer_push_encrypted_records a k tls.enc.seq content_type_appdata input in
          record {
            tls = record tls { enc = record tls.enc { seq = out.1 } };
            buf = buf ++ out.0;
            ret = 0;
          }
    ]

    unfoldable pub needs_update : Sender Ctx → Bool
    needs_update tls = if leb 16777216 tls.enc.seq then true else tls.needs_key_update

    unfoldable pub send : Sender Ctx → List ℕ → List ℕ → Sent Ctx
    send tls buf input =
        let marked : Sender Ctx = record tls { needs_key_update = needs_update tls } in
        let updated : Sent Ctx = update_send_key marked buf tls.key_update_send_request in
        let fresh : Sender Ctx = record updated.tls {
          needs_key_update = false;
          key_update_send_request = false;
        } in
        if needs_update tls
        then if updated.ret == 0 then push_data fresh updated.buf input else updated
        else push_data marked buf input

  unfoldable pub update_key : Sender Ctx → Bool → Sender Ctx
  update_key tls request_update = record tls {
    needs_key_update = true;
    key_update_send_request = request_update;
  }
