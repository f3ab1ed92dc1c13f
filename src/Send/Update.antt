-- ===== src/Send/Update.antt =====
-- What `ptls_send` does when a key update is due.
use picotls.Prelude.{
  ℕ, ◌≡◌, refl, Bool, true, false, Option, some, List, [], ◌∷◌, ◌++◌, append_assoc, arith,
  if◌then◌else◌, Result, ok,
}
use picotls.Record.{content_type_handshake, content_type_appdata}
use picotls.Protect.{Aead, Protection, buffer_push_encrypted_records}
use picotls.Handshake.{handshake_type_key_update}
use picotls.Send.{
  Sender, begin_record_message, message_body, encrypt_with, commit_record_message, push_message,
  setup_traffic_protection, update_traffic_key, update_send_key, push_data, needs_update, send,
}
use picotls.Send.Encrypt.{buffer_encrypt_record-buffer_push_encrypted_records}

-- The KeyUpdate message that asks for one in return, or not.
abbrev pub key_update : Bool → List ℕ
key_update request = message_body handshake_type_key_update ((if request then 1 else 0) ∷ [])

module _ {Ctx : Type 0} (a : Aead Ctx) where
  -- A message pushed through the record emitter goes out in records of its own, under the key.
  push_message-keyed :
      (enc : Protection Ctx) (k : Ctx) (buf : List ℕ) (type : ℕ) (body : List ℕ)
      → enc.aead ≡ some k
      → push_message a enc buf type body ≡ (
        buf
            ++ (buffer_push_encrypted_records a k enc.seq content_type_handshake
                (message_body type body)).0,
        record enc {
          seq =
              (buffer_push_encrypted_records a k enc.seq content_type_handshake
                (message_body type body)).1;
        },
      )
  unfolding push_message begin_record_message commit_record_message encrypt_with
  push_message-keyed enc k buf type body e =
      let header : List ℕ = 22 ∷ 3 ∷ 3 ∷ 0 ∷ 0 ∷ [] in
      rw (e, append_assoc buf header (message_body type body))
        (rw
          (buffer_encrypt_record-buffer_push_encrypted_records a k enc.seq buf 22 0 0
            (message_body type body) (unfold message_body in omega arith))
          refl)

  module _ (expand : List ℕ → Result (List ℕ)) (new_aead : List ℕ → Option Ctx) where
    update_traffic_key-ok :
        (tp : Protection Ctx) (secret : List ℕ) (k : Ctx)
        → expand tp.secret ≡ ok secret
        → new_aead secret ≡ some k
        → update_traffic_key a expand new_aead tp
          ≡ (record { secret = secret; epoch = 3; aead = some k; seq = 0 }, 0)
    unfolding update_traffic_key setup_traffic_protection
    update_traffic_key-ok tp secret k e n =
        rw (e, update_traffic_key) (rw (n, setup_traffic_protection) refl)

    -- With the marks set, the connection after the KeyUpdate has gone out.
    update_send_key-ok :
        (tls : Sender Ctx) (k k' : Ctx) (secret buf : List ℕ) (request : Bool)
        → tls.enc.aead ≡ some k
        → expand tls.enc.secret ≡ ok secret
        → new_aead secret ≡ some k'
        → update_send_key a expand new_aead tls buf request ≡ record {
          tls = record tls { enc = record { secret = secret; epoch = 3; aead = some k'; seq = 0 } };
          buf =
              buf
              ++ (buffer_push_encrypted_records a k tls.enc.seq content_type_handshake
                  (key_update request)).0;
          ret = 0;
        }
    unfolding update_send_key
    update_send_key-ok tls k k' secret buf request ek es en =
        let sent = buffer_push_encrypted_records a k tls.enc.seq 22 (key_update request) in
        rw (push_message-keyed tls.enc k buf 24 ((if request then 1 else 0) ∷ []) ek)
          (rw (update_traffic_key-ok (record tls.enc { seq = sent.1 }) secret k' es en) refl)

    -- When a key update is due, because it was asked for or 2 ^ 24 records have gone out under the
    -- key, and the next key can be made, `ptls_send` appends a KeyUpdate message under the old key,
    -- and after it the data under the new key from sequence number 0; the marks are cleared, and
    -- the next key's sequence number counts the data's records only.
    pub send-needs_update :
        (tls : Sender Ctx) (k k' : Ctx) (secret buf input : List ℕ)
        → needs_update a expand new_aead tls ≡ true
        → tls.enc.aead ≡ some k
        → expand tls.enc.secret ≡ ok secret
        → new_aead secret ≡ some k'
        → send a expand new_aead tls buf input ≡ record {
          tls = record {
            state = tls.state;
            enc = record {
              secret = secret;
              epoch = 3;
              aead = some k';
              seq = (buffer_push_encrypted_records a k' 0 content_type_appdata input).1;
            };
            needs_key_update = false;
            key_update_send_request = false;
          };
          buf =
              (buf
                ++ (buffer_push_encrypted_records a k tls.enc.seq content_type_handshake
                    (key_update tls.key_update_send_request)).0)
              ++ (buffer_push_encrypted_records a k' 0 content_type_appdata input).0;
          ret = 0;
        }
    unfolding send push_data
    send-needs_update tls k k' secret buf input due ek es en =
        rw
          (
            update_send_key-ok
                (record tls { needs_key_update = needs_update a expand new_aead tls }) k k' secret
                buf tls.key_update_send_request ek es en,
            due,
          )
          refl
