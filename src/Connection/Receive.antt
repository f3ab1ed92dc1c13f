-- ===== src/Connection/Receive.antt =====
-- What a connection that is set up makes of the records that its peer has sealed.
use picotls.Prelude.{
  ℕ, zero, suc, ◌+◌, ◌≤◌, ◌<◌, ◌≡◌, refl, ap, ◌∙◌, Bool, true, false, ◌||◌, Option, none, some,
  List, [], ◌∷◌, ◌++◌, arith, ◌==◌, ==_self, length, take, drop, All, length-append, length-take,
  All-append, All-take,
}
use picotls.Wire.{IsByte}
use picotls.Record.{
  parse_record, max_plaintext_record_size, max_encrypted_record_size, content_type_appdata,
}
use picotls.Protect.{
  Aead, AeadLaws, push_record, next_seq, aead_encrypt, push_encrypted_rounds,
  buffer_push_encrypted_records, get_record_overhead,
}
use picotls.Protect.Sizes.{one_round, length-push_record, length-aead_encrypt}
use picotls.Protect.RoundTrip.{inner_plaintext-append, aead_decrypt-aead_encrypt, parse_pushed}
use picotls.Handshake.{handshake_is_complete}
use picotls.Connection.{
  Tls, Input, handle_appdata, handle_opened, handle_plaintext, handle_encrypted, handle_unencrypted,
  handle_record, handle_parsed, handle_input, receive_rounds, receive,
}

-- A connection that can take application data: the handshake is complete, there is a key, and
-- nothing is held back from earlier input.
pub record IsReady {Ctx : Type 0} {S : Type 0} (tls : Tls Ctx S) (k : Ctx) : Type 0 where
  pub complete : handshake_is_complete tls.state ≡ true
  pub key : tls.dec.aead ≡ some k
  pub no_record : tls.recvbuf_rec ≡ none
  pub no_message : tls.recvbuf_mess ≡ none

-- The connection after one record.
abbrev pub after_record : {Ctx S : Type 0} → Tls Ctx S → Tls Ctx S
after_record tls = record tls {
  dec = record tls.dec { seq = next_seq tls.dec.seq };
  recvbuf_rec = none;
}

module _ {Ctx S : Type 0} (a : Aead Ctx) (grow : ℕ → ℕ → Bool) (stale : ℕ → List ℕ)
    (dispatch : Tls Ctx S → List ℕ → Bool → Tls Ctx S × ℕ) (laws : AeadLaws a)
    (room : (off delta : ℕ) → grow off delta ≡ true) where
  handle_plaintext-appdata :
      (consumed : ℕ) (tls : Tls Ctx S) (buf chunk : List ℕ)
      → handshake_is_complete tls.state ≡ true
      → tls.recvbuf_mess ≡ none
      → handle_plaintext a grow stale dispatch consumed tls buf (chunk ++ 23 ∷ []) ≡ record {
        tls = record tls { recvbuf_rec = none };
        decryptbuf = buf ++ chunk;
        ret = 0;
        consumed = consumed;
      }
  unfolding handle_plaintext handle_opened handle_appdata
  handle_plaintext-appdata consumed tls buf chunk complete no_message =
      rw (inner_plaintext-append chunk 23 (λ e. absurd (omega arith)), handle_plaintext)
        (rw (no_message, handle_opened) (rw (complete, handle_appdata) refl))

  handle_encrypted-sealed :
      (consumed : ℕ) (tls : Tls Ctx S) (k : Ctx) (buf chunk : List ℕ)
      → handshake_is_complete tls.state ≡ true
      → tls.recvbuf_mess ≡ none
      → All IsByte (chunk ++ 23 ∷ [])
      → handle_encrypted a grow stale dispatch consumed tls buf k 23
          (aead_encrypt a k tls.dec.seq chunk 23).0
        ≡ record { tls = after_record tls; decryptbuf = buf ++ chunk; ret = 0; consumed = consumed }
  unfolding handle_encrypted
  handle_encrypted-sealed consumed tls k buf chunk complete no_message hb =
      rw
        (
          room (length buf) (5 + length (aead_encrypt a k tls.dec.seq chunk 23).0),
          aead_decrypt-aead_encrypt a laws k tls.dec.seq chunk 23 hb,
          handle_encrypted,
        )
        (handle_plaintext-appdata consumed
          (record tls { dec = record tls.dec { seq = next_seq tls.dec.seq } }) buf chunk complete
          no_message)

  handle_record-keyed :
      (consumed : ℕ) (tls : Tls Ctx S) (k : Ctx) (buf fragment : List ℕ)
      → tls.dec.aead ≡ some k
      → handle_record a grow stale dispatch consumed tls buf 23 fragment
        ≡ handle_encrypted a grow stale dispatch consumed tls buf k 23 fragment
  unfolding handle_record
  handle_record-keyed consumed tls k buf fragment key =
      ap
        (λ (m : Option Ctx). elim m [
          | some k' ↦ handle_encrypted a grow stale dispatch consumed tls buf k' 23 fragment
          | none ↦ handle_unencrypted a grow stale dispatch consumed tls buf 23 fragment
        ])
        key

  -- One sealed record in front of any other bytes.
  handle_input-sealed :
      (tls : Tls Ctx S) (k : Ctx) (buf chunk rest : List ℕ)
      → IsReady tls k
      → All IsByte (chunk ++ 23 ∷ [])
      → length chunk ≤ max_plaintext_record_size
      → handle_input a grow stale dispatch tls buf
          (push_record content_type_appdata (aead_encrypt a k tls.dec.seq chunk 23).0 ++ rest)
        ≡ record {
          tls = after_record tls;
          decryptbuf = buf ++ chunk;
          ret = 0;
          consumed = length (aead_encrypt a k tls.dec.seq chunk 23).0 + 5;
        }
  unfolding handle_input handle_parsed
  handle_input-sealed tls k buf chunk rest ready hb le =
      let block : List ℕ = (aead_encrypt a k tls.dec.seq chunk 23).0 in
      let size : length block ≤ max_encrypted_record_size =
        omega (arith, length-aead_encrypt a laws k tls.dec.seq chunk 23, laws.tag_fits) in
      let tls' : Tls Ctx S = record tls { recvbuf_rec = none } in
      let stream : List ℕ = push_record content_type_appdata block ++ rest in
      ap (handle_parsed a grow stale dispatch tls buf)
        (ap (λ r. parse_record grow r stream) ready.no_record ∙ parse_pushed grow block rest size)
      ∙ (handle_record-keyed (length block + 5) tls' k buf block ready.key
          ∙ handle_encrypted-sealed (length block + 5) tls' k buf chunk ready.complete
              ready.no_message hb)

  -- The loop stops once the buffer has grown.
  grown :
      (rounds orig : ℕ) (tls : Tls Ctx S) (buf input : List ℕ)
      → orig < length buf
      → receive_rounds a grow stale dispatch rounds orig tls buf input
        ≡ record { tls = tls; decryptbuf = buf; ret = 0; consumed = 0 }
  unfolding receive_rounds
  grown zero orig tls buf input h = refl
  grown (suc rounds) orig tls buf input h =
      rw (differs (length buf) orig h, or_true (length input == 0)) refl
    where
      differs : (n m : ℕ) → m < n → (n == m) ≡ false
      differs n m lt = ground arith

      or_true : (b : Bool) → (b || true) ≡ true
      or_true true = refl
      or_true false = refl

  receive_rounds-sealed :
      (rounds : ℕ) (tls : Tls Ctx S) (k : Ctx) (buf chunk rest : List ℕ)
      → IsReady tls k
      → All IsByte (chunk ++ 23 ∷ [])
      → 0 < length chunk
      → length chunk ≤ max_plaintext_record_size
      → receive_rounds a grow stale dispatch
          (suc rounds)
          (length buf)
          tls
          buf
          (push_record content_type_appdata (aead_encrypt a k tls.dec.seq chunk 23).0 ++ rest)
        ≡ record {
          tls = after_record tls;
          decryptbuf = buf ++ chunk;
          ret = 0;
          consumed = length (aead_encrypt a k tls.dec.seq chunk 23).0 + 5;
        }
  unfolding receive_rounds
  receive_rounds-sealed rounds tls k buf chunk rest ready hb h le =
      let block : List ℕ = (aead_encrypt a k tls.dec.seq chunk 23).0 in
      let stream : List ℕ = push_record content_type_appdata block ++ rest in
      let there : (length stream == 0) ≡ false = positive (length stream) (
        omega (
          arith,
          length-append (push_record content_type_appdata block) rest,
          length-push_record content_type_appdata block,
        )) in
      rw
        (
          there,
          ==_self (length buf),
          handle_input-sealed tls k buf chunk rest ready hb le,
          grown rounds (length buf) (after_record tls) (buf ++ chunk)
              (drop (length block + 5) stream) (omega (arith, length-append buf chunk)),
        )
        (ap
          (λ (n : ℕ). record {
            tls = after_record tls;
            decryptbuf = buf ++ chunk;
            ret = 0;
            consumed = n;
          })
          (omega arith))
    where
      positive : (n : ℕ) → 0 < n → (n == 0) ≡ false
      positive n lt = ground arith

  enough_rounds :
      (tls : Tls Ctx S) (buf input : List ℕ) (out : Input Ctx S)
      → 0 < length input
      → ((n : ℕ) → receive_rounds a grow stale dispatch (suc n) (length buf) tls buf input ≡ out)
      → receive a grow stale dispatch tls buf input ≡ out
  unfolding receive
  enough_rounds tls buf [] out h rounds = absurd (omega arith)
  enough_rounds tls buf (b ∷ input) out h rounds = rounds (length input)

  -- `ptls_receive` on what `ptls_send`'s `buffer_push_encrypted_records` makes of data that is not
  -- empty, by a connection that is ready, has the same key and is at the same sequence number, and
  -- with memory there: it returns 0 and has appended the first 16384 bytes of the data, or all of
  -- it if it is shorter; it has consumed exactly their record, and is one sequence number further.
  pub receive-sealed :
      (tls : Tls Ctx S) (k : Ctx) (buf text : List ℕ)
      → IsReady tls k
      → All IsByte text
      → 0 < length text
      → receive a grow stale dispatch tls buf
          (buffer_push_encrypted_records a k tls.dec.seq content_type_appdata text).0
        ≡ record {
          tls = after_record tls;
          decryptbuf = buf ++ take max_plaintext_record_size text;
          ret = 0;
          consumed = length (take max_plaintext_record_size text) + get_record_overhead a;
        }
  receive-sealed tls k buf [] ready hb h = absurd (omega arith)
  receive-sealed tls k buf (b ∷ text) ready hb h =
      let all : List ℕ = b ∷ text in
      let chunk : List ℕ = take max_plaintext_record_size all in
      let block : List ℕ = (aead_encrypt a k tls.dec.seq chunk 23).0 in
      let rest : List ℕ =
        (push_encrypted_rounds a (length text) k (next_seq tls.dec.seq) 23
          (drop max_plaintext_record_size all)).0 in
      let stream : List ℕ = push_record content_type_appdata block ++ rest in
      let some_bytes : 0 < length chunk =
        omega (arith, length-take max_plaintext_record_size all) in
      let sent : (buffer_push_encrypted_records a k tls.dec.seq 23 all).0 ≡ stream =
        unfold buffer_push_encrypted_records in
        ap (λ t. t.0) (one_round a k (length text) tls.dec.seq 23 all h) in
      rw sent (
        enough_rounds tls buf stream _
          (omega (
            arith,
            length-append (push_record content_type_appdata block) rest,
            length-push_record content_type_appdata block,
          ))
          (λ n.
            receive_rounds-sealed n tls k buf chunk rest ready
              (All-append IsByte chunk (23 ∷ []) (All-take IsByte max_plaintext_record_size all hb)
                (omega arith, tt))
              some_bytes (omega (arith, length-take max_plaintext_record_size all))
            ∙ ap
                (λ (m : ℕ). record {
                  tls = after_record tls;
                  decryptbuf = buf ++ chunk;
                  ret = 0;
                  consumed = m;
                })
                (consumed_size tls.dec.seq chunk)))
    where
      consumed_size :
          (seq : ℕ) (piece : List ℕ)
          → length (aead_encrypt a k seq piece 23).0 + 5 ≡ length piece + get_record_overhead a
      consumed_size seq piece =
          unfold get_record_overhead in omega (arith, length-aead_encrypt a laws k seq piece 23)
