-- ===== src/Ticket.antt =====
-- Session tickets, lib/picotls.c: `decode_new_session_ticket`, `decode_stored_session_ticket`,
-- `encode_session_identifier`, `decode_session_identifier`. The parameters: the context's
-- `on_extension`, none for NULL; the key exchanges and cipher suites of the context with their ids;
-- what `get_time` returns. The pointers that a decoder sets are the fields of a record.
pub mod Identifier
pub mod NewTicket
pub mod Exchange
pub mod Stored
pub mod Foreseen
pub mod Agreement
use picotls.Prelude.{
  ℕ, ◌+◌, ◌-◌, ◌%◌, ◌^◌, Bool, ◌&&◌, Option, none, some, List, [], ◌∷◌, ◌++◌, ltb, leb, ◌==◌,
  if◌then◌else◌, length, take, drop, Result, ok, err, guard, ◌>>=◌, ◌>>◌,
}
use picotls.Prelude.Compare.{same_bytes}
use picotls.Code.{alert_decode_error, error_library}
use picotls.Wire.{
  bytes, decode16, decode32, decode64, push16, push32, push64, push_block, decode_open_block,
  decode_block, take_all, is_empty,
}
use picotls.Hkdf.{HashAlgorithm}
use picotls.KeySchedule.{KeySchedule, and_then, derive_resumption_secret}
use picotls.Extensions.{buffer_push_extension, call_on_extension, decode_extensions}
use picotls.Handshake.{handshake_type_new_session_ticket}

abbrev pub extension_type_early_data : ℕ
extension_type_early_data = 42

-- What `decode_new_session_ticket` sets.
pub record Ticket : Type 0 where
  pub lifetime : ℕ
  pub age_add : ℕ
  pub nonce : List ℕ
  pub ticket : List ℕ
  pub max_early_data_size : ℕ

-- The block that takes all of it, which must not be empty.
unfoldable pub take_some : List ℕ → Result (List ℕ × List ℕ)
take_some src = if is_empty src then err alert_decode_error else ok (src, [])

abbrev pub OnExtension : Type 0
OnExtension = Option (ℕ → ℕ → List ℕ → ℕ)

-- The state of the loop is `max_early_data_size`.
unfoldable pub ticket_extension : OnExtension → ℕ → ℕ → List ℕ → Result (ℕ × List ℕ)
unfolding call_on_extension
ticket_extension on_extension max exttype src =
    let next : Result (ℕ × List ℕ) =
      if exttype == extension_type_early_data then decode32 src else ok (max, []) in
    call_on_extension on_extension handshake_type_new_session_ticket exttype src >> next

unfoldable pub decode_new_session_ticket : OnExtension → List ℕ → Result Ticket
unfolding take_some ticket_extension
decode_new_session_ticket on_extension src = do
  (lifetime, src1) ← decode32 src
  (age_add, src2) ← decode32 src1
  (nonce, src3) ← decode_open_block (bytes 1) take_all src2
  (ticket, src4) ← decode_open_block (bytes 2) take_some src3
  max ← decode_extensions (ticket_extension on_extension) handshake_type_new_session_ticket 0 src4
  ok (record {
    lifetime = lifetime;
    age_add = age_add;
    nonce = nonce;
    ticket = ticket;
    max_early_data_size = max;
  })

-- The extensions of the message that `send_session_ticket` pushes.
unfoldable pub ticket_extensions : ℕ → List ℕ
unfolding buffer_push_extension
ticket_extensions max_early_data_size =
    if max_early_data_size == 0
    then []
    else buffer_push_extension extension_type_early_data (push32 max_early_data_size)

-- The message, whose nonce is empty.
unfoldable pub push_new_session_ticket : ℕ → ℕ → List ℕ → ℕ → List ℕ
unfolding ticket_extensions
push_new_session_ticket lifetime age_add ticket max_early_data_size =
    push32 lifetime
    ++ (push32 age_add
        ++ (push_block (bytes 1) []
            ++ (push_block (bytes 2) ticket
                ++ push_block (bytes 2) (ticket_extensions max_early_data_size))))

-- `*cand` at the end of the loop over the candidates; `id` reads the field.
unfoldable pub find_id {ℓ} : {A : Type ℓ} → (A → ℕ) → List A → ℕ → Option A
find_id id [] wanted = none
find_id id (cand ∷ cands) wanted = if id cand == wanted then some cand else find_id id cands wanted

-- A candidate that is not there is a library error.
unfoldable pub found {ℓ} : {A : Type ℓ} → Option A → Result A
found none = err error_library
found (some cand) = ok cand

-- `(uint32_t)(now - obtained_at) + age_add`, for a ticket of less than seven days.
unfoldable pub obfuscated_age : ℕ → ℕ → ℕ → Result ℕ
obfuscated_age now obtained_at age_add = do
  guard (leb obtained_at now && ltb (now - obtained_at) 604800000) error_library
  ok (((now - obtained_at) % 2 ^ 32 + age_add) % 2 ^ 32)

-- What `decode_stored_session_ticket` sets.
pub record StoredTicket (Kx Cs : Type 0) : Type 0 where
  pub key_share : Kx
  pub cs : Cs
  pub secret : List ℕ
  pub obfuscated_ticket_age : ℕ
  pub ticket : List ℕ
  pub max_early_data_size : ℕ

-- The code of the block that holds the server's message.
unfoldable pub ticket_block : OnExtension → List ℕ → Result (Ticket × List ℕ)
unfolding decode_new_session_ticket
ticket_block on_extension src = decode_new_session_ticket on_extension src >>= (λ t. ok (t, []))

module _ {Kx Cs : Type 0} (kx_id : Kx → ℕ) (cs_id : Cs → ℕ) (key_exchanges : List Kx)
    (cipher_suites : List Cs) (on_extension : OnExtension) (now : ℕ) where
  unfoldable pub decode_stored_session_ticket : List ℕ → Result (StoredTicket Kx Cs)
  unfolding ticket_block find_id found obfuscated_age
  decode_stored_session_ticket src = do
    (obtained_at, src1) ← decode64 src
    (kxid, src2) ← decode16 src1
    (csid, src3) ← decode16 src2
    (t, src4) ← decode_open_block (bytes 3) (ticket_block on_extension) src3
    (secret, src5) ← decode_block (bytes 2) take_all src4
    key_share ← found (find_id kx_id key_exchanges kxid)
    cs ← found (find_id cs_id cipher_suites csid)
    age ← obfuscated_age now obtained_at t.age_add
    ok (record {
      key_share = key_share;
      cs = cs;
      secret = secret;
      obfuscated_ticket_age = age;
      ticket = t.ticket;
      max_early_data_size = t.max_early_data_size;
    })

-- "ptls0001"
abbrev pub session_identifier_magic : List ℕ
session_identifier_magic = 112 ∷ 116 ∷ 108 ∷ 115 ∷ 48 ∷ 48 ∷ 48 ∷ 49 ∷ []

-- What `decode_session_identifier` sets.
pub record SessionIdentifier : Type 0 where
  pub issued_at : ℕ
  pub psk : List ℕ
  pub ticket_age_add : ℕ
  pub server_name : List ℕ
  pub key_exchange_id : ℕ
  pub csid : ℕ
  pub negotiated_protocol : List ℕ

-- A string, without the NUL that ends it; NULL pushes nothing.
unfoldable pub string_or_empty : Option (List ℕ) → List ℕ
string_or_empty none = []
string_or_empty (some s) = s

-- The identifier's fields, behind the magic and in the order of the block.
unfoldable pub push_session_identifier : SessionIdentifier → List ℕ
push_session_identifier id =
    session_identifier_magic
    ++ (push64 id.issued_at
        ++ (push_block (bytes 2) id.psk
            ++ (push16 id.key_exchange_id
                ++ (push16 id.csid
                    ++ (push32 id.ticket_age_add
                        ++ (push_block (bytes 2) id.server_name
                            ++ push_block (bytes 1) id.negotiated_protocol))))))

-- The identifier of the arguments of `encode_session_identifier` and the resumption secret.
abbrev pub session_identifier :
    ℕ → ℕ → List ℕ → Option (List ℕ) → ℕ → ℕ → Option (List ℕ) → SessionIdentifier
session_identifier now ticket_age_add secret server_name key_exchange_id csid protocol = record {
  issued_at = now;
  psk = secret;
  ticket_age_add = ticket_age_add;
  server_name = string_or_empty server_name;
  key_exchange_id = key_exchange_id;
  csid = csid;
  negotiated_protocol = string_or_empty protocol;
}

unfoldable pub encode_session_identifier :
    {Ctx : Type 0} (algos : ℕ → HashAlgorithm Ctx) (has_memory : Bool) (now ticket_age_add : ℕ)
    (ticket_nonce : List ℕ) (sched : KeySchedule Ctx) (server_name : Option (List ℕ))
    (key_exchange_id csid : ℕ) (negotiated_protocol : Option (List ℕ))
    → Option (Result (List ℕ))
unfolding push_session_identifier
encode_session_identifier algos has_memory now age_add nonce sched name kx cs protocol =
    and_then (derive_resumption_secret algos has_memory sched nonce) (λ secret. some (
      ok (
        push_block (bytes 2)
          (push_session_identifier (session_identifier now age_add secret name kx cs protocol)))))

-- The fields behind the magic, as the code of the outer block reads them.
unfoldable pub identifier_fields : List ℕ → Result (SessionIdentifier × List ℕ)
identifier_fields src = do
  (issued_at, src1) ← decode64 src
  (psk, src2) ← decode_open_block (bytes 2) take_all src1
  (key_exchange_id, src3) ← decode16 src2
  (csid, src4) ← decode16 src3
  (ticket_age_add, src5) ← decode32 src4
  (server_name, src6) ← decode_open_block (bytes 2) take_all src5
  (negotiated_protocol, src7) ← decode_open_block (bytes 1) take_all src6
  ok (
    record {
      issued_at = issued_at;
      psk = psk;
      ticket_age_add = ticket_age_add;
      server_name = server_name;
      key_exchange_id = key_exchange_id;
      csid = csid;
      negotiated_protocol = negotiated_protocol;
    },
    src7,
  )

-- Fewer than eight bytes are not the magic either.
unfoldable pub identifier_block : List ℕ → Result (SessionIdentifier × List ℕ)
unfolding identifier_fields
identifier_block src =
    if same_bytes (take 8 src) session_identifier_magic
    then identifier_fields (drop 8 src)
    else err alert_decode_error

unfoldable pub decode_session_identifier : List ℕ → Result SessionIdentifier
unfolding identifier_block
decode_session_identifier src = do (id, rest) ← decode_block (bytes 2) identifier_block src; ok id
