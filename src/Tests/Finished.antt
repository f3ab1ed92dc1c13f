-- ===== src/Tests/Finished.antt =====
-- The Finished message over the hash that can be run by hand.
use picotls.Prelude.{
  ℕ, ◌+◌, ◌≡◌, refl, true, some, List, [], ◌∷◌, ◌==◌, if◌then◌else◌, arith, length, drop, ok, err,
  guard,
}
use picotls.Code.{alert_decode_error, alert_handshake_failure}
use picotls.Handshake.{handshake_type_finished}
use picotls.Protect.{Protection}
use picotls.Send.{message_body, push_message}
use picotls.KeySchedule.{Slot, update_hash, feed_slot}
use picotls.Finished.{verify_finished, send_finished}
use picotls.Prelude.Compare.{same_bytes}
use picotls.Finished.Verify.{finished_mac, verify_finished-mac, verify_finished-send_finished}
use picotls.Tests.Hkdf.{toy_hash, toy, toy-laws}
use picotls.Tests.KeySchedule.{algos, fed, transcript}
use picotls.Tests.Protect.{tagging}

abbrev one : Slot (List ℕ)
one = record { algo = 5; ctx = 1 ∷ 4 ∷ 2 ∷ [] }

abbrev received : List ℕ
received = 20 ∷ 0 ∷ 0 ∷ 2 ∷ 7 ∷ 7 ∷ []

verify_finished-mac_example :
    verify_finished algos true fed (8 ∷ 9 ∷ []) received
    ≡ some (
        if 4 + toy.digest_size == length received
        then guard
            (same_bytes
              (drop 4 received)
              (finished_mac toy toy_hash fed.hkdf_label_prefix (8 ∷ 9 ∷ []) (1 ∷ 4 ∷ 2 ∷ [])))
            alert_handshake_failure
        else err alert_decode_error)
unfolding update_hash feed_slot
verify_finished-mac_example =
    verify_finished-mac algos (λ h. toy_hash) (λ h. toy-laws) fed (1 ∷ 4 ∷ 2 ∷ []) one [] transcript
      refl [] refl (omega arith) (8 ∷ 9 ∷ []) received

abbrev enc : Protection ℕ
enc = record { secret = 8 ∷ 9 ∷ []; epoch = 2; aead = some 0; seq = 0 }

verify_finished-send_finished_example :
    (verify_data : List ℕ) × (send_finished algos true tagging fed enc []
      ≡ some (
          ok (
            (push_message tagging enc [] handshake_type_finished verify_data).0,
            (push_message tagging enc [] handshake_type_finished verify_data).1,
            update_hash algos true fed (message_body handshake_type_finished verify_data),
          )))
    × (verify_finished algos true fed
          (8 ∷ 9 ∷ [])
          (message_body handshake_type_finished verify_data)
        ≡ some (ok tt))
unfolding update_hash feed_slot
verify_finished-send_finished_example =
    verify_finished-send_finished algos (λ h. toy_hash) (λ h. toy-laws) tagging fed fed
      (1 ∷ 4 ∷ 2 ∷ []) [] enc 5 (1 ∷ 4 ∷ 2 ∷ []) (1 ∷ 4 ∷ 2 ∷ []) [] transcript transcript refl refl
      refl refl (omega arith)
