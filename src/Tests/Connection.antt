-- ===== src/Tests/Connection.antt =====
-- The input side at concrete inputs.
use picotls.Prelude.{
  ℕ, ◌+◌, ◌≡◌, refl, Bool, true, none, some, List, [], ◌∷◌, ◌++◌, arith, length, take,
}
use picotls.Record.{content_type_appdata, max_plaintext_record_size}
use picotls.Protect.{buffer_push_encrypted_records, get_record_overhead}
use picotls.Handshake.{handshake_is_complete, state_number, server_post_handshake}
use picotls.Connection.{Tls, receive}
use picotls.Connection.Receive.{IsReady, after_record, receive-sealed}
use picotls.Tests.Protect.{tagging, tagging-laws}

abbrev always : ℕ → ℕ → Bool
always off delta = true

abbrev server : Tls ℕ ℕ
server = record {
  is_server = true;
  max_buffer_size = 0;
  state = server_post_handshake;
  dec = record { secret = 1 ∷ []; epoch = 3; aead = some 0; seq = 4 };
  early_data_skipped_bytes = 4294967295;
  recvbuf_rec = none;
  recvbuf_mess = none;
  others = 0;
}

server-IsReady : IsReady server 0
unfolding handshake_is_complete state_number
server-IsReady = record { complete = refl; key = refl; no_record = refl; no_message = refl }

abbrev ignore : Tls ℕ ℕ → List ℕ → Bool → Tls ℕ ℕ × ℕ
ignore tls message is_end = (tls, 0)

abbrev greeting : List ℕ
greeting = 5 ∷ 6 ∷ []

receive-sealed_example :
    receive tagging always
      (λ n. [])
      ignore
      server
      (9 ∷ [])
      (buffer_push_encrypted_records tagging 0 4 content_type_appdata greeting).0
    ≡ record {
      tls = after_record server;
      decryptbuf = 9 ∷ [] ++ take max_plaintext_record_size greeting;
      ret = 0;
      consumed = length (take max_plaintext_record_size greeting) + get_record_overhead tagging;
    }
receive-sealed_example =
    receive-sealed tagging always (λ n. []) ignore tagging-laws (λ off delta. refl) server 0
      (9 ∷ []) greeting server-IsReady (omega arith) (omega arith)
