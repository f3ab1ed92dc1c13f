-- ===== src/Tests/Send.antt =====
-- The send side at concrete inputs, with an AEAD that only appends a tag byte.
use picotls.Prelude.{
  ℕ, ◌≡◌, refl, true, false, Option, some, List, [], ◌∷◌, ◌++◌, arith, length, Result, ok,
}
use picotls.Record.{content_type_handshake, content_type_appdata}
use picotls.Protect.{buffer_push_encrypted_records}
use picotls.Handshake.{client_post_handshake}
use picotls.Send.{Sender, buffer_encrypt_record, needs_update, send}
use picotls.Send.Encrypt.{buffer_encrypt_record-buffer_push_encrypted_records}
use picotls.Send.Update.{key_update, send-needs_update}
use picotls.Tests.Protect.{tagging}

buffer_encrypt_record-buffer_push_encrypted_records_example :
    buffer_encrypt_record tagging 0 7 2 (9 ∷ 9 ∷ 22 ∷ 3 ∷ 3 ∷ 0 ∷ 0 ∷ 20 ∷ 0 ∷ []) ≡ (
      9 ∷ 9 ∷ [] ++ (buffer_push_encrypted_records tagging 0 7 22 (20 ∷ 0 ∷ [])).0,
      (buffer_push_encrypted_records tagging 0 7 22 (20 ∷ 0 ∷ [])).1,
    )
buffer_encrypt_record-buffer_push_encrypted_records_example =
    buffer_encrypt_record-buffer_push_encrypted_records tagging 0 7 (9 ∷ 9 ∷ []) 22 0 0
      (20 ∷ 0 ∷ []) (omega arith)

-- A client that has sent its last record under the key.
abbrev worn_out : Sender ℕ
worn_out = record {
  state = client_post_handshake;
  enc = record { secret = 1 ∷ []; epoch = 3; aead = some 0; seq = 16777216 };
  needs_key_update = false;
  key_update_send_request = false;
}

abbrev expand : List ℕ → Result (List ℕ)
expand secret = ok (0 ∷ secret)

abbrev new_aead : List ℕ → Option ℕ
new_aead secret = some (length secret)

due : needs_update tagging expand new_aead worn_out ≡ true
unfolding needs_update
due = refl

send-needs_update_example : send tagging expand new_aead worn_out [] (5 ∷ []) ≡ record {
  tls = record {
    state = client_post_handshake;
    enc = record {
      secret = 0 ∷ 1 ∷ [];
      epoch = 3;
      aead = some 2;
      seq = (buffer_push_encrypted_records tagging 2 0 content_type_appdata (5 ∷ [])).1;
    };
    needs_key_update = false;
    key_update_send_request = false;
  };
  buf =
      ([]
        ++ (buffer_push_encrypted_records tagging 0 16777216 content_type_handshake
            (key_update false)).0)
      ++ (buffer_push_encrypted_records tagging 2 0 content_type_appdata (5 ∷ [])).0;
  ret = 0;
}
send-needs_update_example =
    send-needs_update tagging expand new_aead worn_out 0 2 (0 ∷ 1 ∷ []) [] (5 ∷ []) due refl refl
      refl
