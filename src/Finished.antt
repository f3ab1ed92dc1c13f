-- ===== src/Finished.antt =====
-- The Finished message, lib/picotls.c: `calc_verify_data`, `verify_finished`, `send_finished`, with
-- `mem_equal`; and the data that a CertificateVerify signs, `build_certificate_verify_signdata`. The
-- hash is an argument, as in the key schedule; a result of `none` is an end of the model's fuel, a
-- read of `hashes[0]` in a schedule without a hash, or a read behind the end of an argument of
-- `mem_equal`. The clearing of secrets is left out.
pub mod MemEqual
pub mod Verify
use picotls.Prelude.{
  ℕ, zero, suc, ◌+◌, bit_or, bit_xor, Bool, Option, none, some, List, [], ◌∷◌, ◌++◌, ◌==◌,
  if◌then◌else◌, length, take, drop, replicate, Result, ok, err, guard,
}
use mathlib.Core.Option
use picotls.Code.{alert_decode_error, alert_handshake_failure, error_no_memory}
use picotls.Hkdf.{HashAlgorithm, HmacContext, hmac_create, hmac_update, hmac_final_free}
use picotls.KeySchedule.{Slot, KeySchedule, and_then, expand_secret, update_hash}
use picotls.Handshake.{handshake_type_finished}
use picotls.Protect.{Aead, Protection}
use picotls.Send.{message_body, push_message}

-- "finished"
abbrev pub label_finished : List ℕ
label_finished = 102 ∷ 105 ∷ 110 ∷ 105 ∷ 115 ∷ 104 ∷ 101 ∷ 100 ∷ []

abbrev pub handshake_header_size : ℕ
handshake_header_size = 4

-- `for (; len != 0; --len) t |= *x++ ^ *y++;`
unfoldable pub or_differences : ℕ → ℕ → List ℕ → List ℕ → Option ℕ
or_differences zero t xs ys = some t
or_differences (suc len) t (x ∷ xs) (y ∷ ys) = or_differences len (bit_or t (bit_xor x y)) xs ys
or_differences (suc len) t _ _ = none

unfoldable pub mem_equal : List ℕ → List ℕ → ℕ → Option Bool
unfolding or_differences
mem_equal x y len = Option.map (λ t. t == 0) (or_differences len 0 x y)

module _ {Ctx : Type 0} (algos : ℕ → HashAlgorithm Ctx) (has_memory : Bool) where
  -- `hashes[0]`'s digest of the messages so far.
  unfoldable pub snapshot : Slot Ctx → List ℕ
  snapshot slot = take (algos slot.algo).digest_size ((algos slot.algo).final_snapshot slot.ctx)

  unfoldable pub digest_with : Slot Ctx → List ℕ → Option (Result (List ℕ))
  unfolding snapshot
  digest_with slot key = elim (hmac_create (algos slot.algo) has_memory key) [
    | none ↦ some (err error_no_memory)
    | some hmac ↦ some (
        ok (hmac_final_free (algos slot.algo) (hmac_update (algos slot.algo) hmac (snapshot slot))))
  ]

  unfoldable pub calc_on : List (Slot Ctx) → KeySchedule Ctx → List ℕ → Option (Result (List ℕ))
  unfolding digest_with
  calc_on [] sched secret = none
  calc_on (slot ∷ slots) sched secret =
      and_then
        (expand_secret algos has_memory sched slot (take (algos slot.algo).digest_size secret)
          label_finished [])
        (digest_with slot)

  unfoldable pub calc_verify_data : KeySchedule Ctx → List ℕ → Option (Result (List ℕ))
  unfolding calc_on
  calc_verify_data sched secret = calc_on sched.hashes sched secret

  unfoldable pub compare_with : Slot Ctx → List ℕ → List ℕ → Option (Result (Unit {0}))
  compare_with slot message verify_data =
      Option.map (λ equal. guard equal alert_handshake_failure)
        (mem_equal (drop handshake_header_size message) verify_data (algos slot.algo).digest_size)

  unfoldable pub verify_on :
      List (Slot Ctx) → KeySchedule Ctx → List ℕ → List ℕ → Option (Result (Unit {0}))
  unfolding compare_with
  verify_on [] sched secret message = none
  verify_on (slot ∷ slots) sched secret message =
      if handshake_header_size + (algos slot.algo).digest_size == length message
      then and_then (calc_verify_data sched secret) (compare_with slot message)
      else some (err alert_decode_error)

  -- `secret` is the traffic secret of the peer, `traffic_protection.dec.secret`.
  unfoldable pub verify_finished : KeySchedule Ctx → List ℕ → List ℕ → Option (Result (Unit {0}))
  unfolding verify_on
  verify_finished sched secret message = verify_on sched.hashes sched secret message

  -- Through the record emitter: the send buffer, its protection and the schedule after the call.
  unfoldable pub send_finished :
      {Key : Type 0}
      → Aead Key
      → KeySchedule Ctx
      → Protection Key
      → List ℕ
      → Option (Result (List ℕ × Protection Key × KeySchedule Ctx))
  send_finished a sched enc buf = and_then (calc_verify_data sched enc.secret) (λ verify_data.
      let pushed = push_message a enc buf handshake_type_finished verify_data in
      some (
        ok (
          pushed.0,
          pushed.1,
          update_hash algos has_memory sched (message_body handshake_type_finished verify_data),
        )))

  unfoldable pub signdata_on : List (Slot Ctx) → List ℕ → Option (List ℕ)
  unfolding snapshot
  signdata_on [] context_string = none
  signdata_on (slot ∷ slots) context_string =
      some (replicate 64 32 ++ context_string ++ 0 ∷ snapshot slot)

  -- `context_string` without the NUL that ends it.
  unfoldable pub build_certificate_verify_signdata : KeySchedule Ctx → List ℕ → Option (List ℕ)
  unfolding signdata_on
  build_certificate_verify_signdata sched context_string = signdata_on sched.hashes context_string
