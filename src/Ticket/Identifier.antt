-- ===== src/Ticket/Identifier.antt =====
-- A session identifier, what a server puts into its encrypted tickets, is read back.
use picotls.Prelude.{
  ℕ, ◌^◌, ◌<◌, ◌≡◌, refl, ap, Bool, Option, none, some, List, [], ◌++◌, length, ok, arith,
}
use picotls.Wire.{bytes, push16, push32, push_block, take_all}
use picotls.Wire.Integers.{decode-push}
use picotls.Wire.Blocks.{decode_open_block-push_block, decode_block-body}
use picotls.Hkdf.{HashAlgorithm}
use picotls.KeySchedule.{KeySchedule, and_then, derive_resumption_secret}
use picotls.Ticket.{
  SessionIdentifier, push_session_identifier, string_or_empty, session_identifier,
  identifier_fields, identifier_block, decode_session_identifier, encode_session_identifier,
}

-- The fields fit the widths that they are written with.
abbrev pub FitsFields : SessionIdentifier → Type 0
FitsFields id =
    (id.issued_at < 2 ^ 64)
    × (length id.psk < 2 ^ 16)
    × (id.key_exchange_id < 2 ^ 16)
    × (id.csid < 2 ^ 16)
    × (id.ticket_age_add < 2 ^ 32)
    × (length id.server_name < 2 ^ 16)
    × (length id.negotiated_protocol < 2 ^ 8)
    × (length (push_session_identifier id) < 2 ^ 16)

-- What a NULL string is read back as, and another one.
abbrev pub text_or_empty : Option (List ℕ) → List ℕ
text_or_empty none = []
text_or_empty (some text) = text

-- The fields that are read back, by the arguments that the server gave.
abbrev pub issued : ℕ → ℕ → List ℕ → Option (List ℕ) → ℕ → ℕ → Option (List ℕ) → SessionIdentifier
issued time age_add secret name key_exchange_id cipher_suite_id protocol = record {
  issued_at = time;
  psk = secret;
  ticket_age_add = age_add;
  server_name = text_or_empty name;
  key_exchange_id = key_exchange_id;
  csid = cipher_suite_id;
  negotiated_protocol = text_or_empty protocol;
}

pub session_identifier-issued :
    (time age_add : ℕ) (secret : List ℕ) (name : Option (List ℕ)) (key_exchange_id csid : ℕ)
    (protocol : Option (List ℕ))
    → session_identifier time age_add secret name key_exchange_id csid protocol
      ≡ issued time age_add secret name key_exchange_id csid protocol
unfolding string_or_empty
session_identifier-issued time age_add secret none kx cs none = refl
session_identifier-issued time age_add secret none kx cs (some p) = refl
session_identifier-issued time age_add secret (some n) kx cs none = refl
session_identifier-issued time age_add secret (some n) kx cs (some p) = refl

identifier_block-push :
    (id : SessionIdentifier)
    → FitsFields id
    → identifier_block (push_session_identifier id) ≡ ok (id, [])
unfolding identifier_block push_session_identifier identifier_fields
identifier_block-push id (h0, h1, h2, h3, h4, h5, h6, h7) =
    let tail6 : List ℕ = push_block (bytes 1) id.negotiated_protocol in
    let tail5 : List ℕ = push_block (bytes 2) id.server_name ++ tail6 in
    let tail4 : List ℕ = push32 id.ticket_age_add ++ tail5 in
    let tail3 : List ℕ = push16 id.csid ++ tail4 in
    let tail2 : List ℕ = push16 id.key_exchange_id ++ tail3 in
    let tail1 : List ℕ = push_block (bytes 2) id.psk ++ tail2 in
    rw ((decode-push id.issued_at tail1).3 h0) (
      rw (decode_open_block-push_block (bytes 2) id.psk tail2 (h1, omega arith)) (
        rw ((decode-push id.key_exchange_id tail3).0 h2) (
          rw ((decode-push id.csid tail4).0 h3) (
            rw ((decode-push id.ticket_age_add tail5).2 h4) (
              rw (decode_open_block-push_block (bytes 2) id.server_name tail6 (h5, omega arith)) (
                rw
                  (decode_block-body (bytes 1) take_all id.negotiated_protocol
                    id.negotiated_protocol (h6, omega arith) refl).0
                  refl))))))

pub decode_session_identifier-push :
    (id : SessionIdentifier)
    → FitsFields id
    → decode_session_identifier (push_block (bytes 2) (push_session_identifier id)) ≡ ok id
unfolding decode_session_identifier
decode_session_identifier-push id h =
    rw
      (decode_block-body (bytes 2) identifier_block (push_session_identifier id) id
        (h.7, omega arith) (identifier_block-push id h)).1
      refl

-- When the resumption secret can be derived, `encode_session_identifier` gives bytes that
-- `decode_session_identifier` reads back: the time, the secret, and all of its arguments, where a
-- string that is NULL becomes an empty one. The arguments fit the widths that they are written
-- with, and the fields together 16 bits.
pub decode_session_identifier-encode_session_identifier :
    {Ctx : Type 0} (algos : ℕ → HashAlgorithm Ctx) (has_memory : Bool) (now ticket_age_add : ℕ)
    (ticket_nonce : List ℕ) (sched : KeySchedule Ctx) (server_name : Option (List ℕ))
    (key_exchange_id csid : ℕ) (negotiated_protocol : Option (List ℕ)) (secret : List ℕ)
    → derive_resumption_secret algos has_memory sched ticket_nonce ≡ some (ok secret)
    → FitsFields
        (issued now ticket_age_add secret server_name key_exchange_id csid negotiated_protocol)
    → (encoded : List ℕ) × (encode_session_identifier algos has_memory now ticket_age_add
          ticket_nonce sched server_name key_exchange_id csid negotiated_protocol
        ≡ some (ok encoded))
      × (decode_session_identifier encoded
          ≡ ok (record {
            issued_at = now;
            psk = secret;
            ticket_age_add = ticket_age_add;
            server_name = text_or_empty server_name;
            key_exchange_id = key_exchange_id;
            csid = csid;
            negotiated_protocol = text_or_empty negotiated_protocol;
          }))
unfolding encode_session_identifier and_then
decode_session_identifier-encode_session_identifier algos mem now age nonce sched name kx cs proto s
      e h =
    let id : SessionIdentifier = issued now age s name kx cs proto in
    (
      push_block (bytes 2) (push_session_identifier id),
      rw e (
          ap (λ i. some (ok (push_block (bytes 2) (push_session_identifier i))))
            (session_identifier-issued now age s name kx cs proto)),
      decode_session_identifier-push id h,
    )
