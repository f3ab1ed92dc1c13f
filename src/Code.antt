-- ===== src/Code.antt =====
-- The return codes of include/picotls.h that the modelled functions use.
use Prim.Native.Nat.{ℕ, ◌+◌, ◌*◌, ◌/◌}

abbrev pub error_class_self_alert : ℕ
error_class_self_alert = 0

abbrev pub error_class_peer_alert : ℕ
error_class_peer_alert = 0x100

abbrev pub error_class_internal : ℕ
error_class_internal = 0x200

-- `(e) & ~0xff`
abbrev pub error_get_class : ℕ → ℕ
error_get_class e = e / 256 * 256

abbrev pub alert_to_peer_error : ℕ → ℕ
alert_to_peer_error e = e + error_class_peer_alert

abbrev pub alert_close_notify : ℕ
alert_close_notify = 0

abbrev pub alert_unexpected_message : ℕ
alert_unexpected_message = 10

abbrev pub alert_bad_record_mac : ℕ
alert_bad_record_mac = 20

abbrev pub alert_handshake_failure : ℕ
alert_handshake_failure = 40

abbrev pub alert_illegal_parameter : ℕ
alert_illegal_parameter = 47

abbrev pub alert_decode_error : ℕ
alert_decode_error = 50

abbrev pub alert_internal_error : ℕ
alert_internal_error = 80

abbrev pub error_no_memory : ℕ
error_no_memory = error_class_internal + 1

abbrev pub error_in_progress : ℕ
error_in_progress = error_class_internal + 2

abbrev pub error_library : ℕ
error_library = error_class_internal + 3

abbrev pub error_stateless_retry : ℕ
error_stateless_retry = error_class_internal + 6

abbrev pub error_incorrect_base64 : ℕ
error_incorrect_base64 = error_class_internal + 50

abbrev pub error_pem_label_not_found : ℕ
error_pem_label_not_found = error_class_internal + 51

abbrev pub error_ber_malformed_type : ℕ
error_ber_malformed_type = error_class_internal + 53

abbrev pub error_ber_malformed_length : ℕ
error_ber_malformed_length = error_class_internal + 54

abbrev pub error_ber_excessive_length : ℕ
error_ber_excessive_length = error_class_internal + 55

abbrev pub error_ber_element_too_short : ℕ
error_ber_element_too_short = error_class_internal + 56

abbrev pub error_ber_unexpected_eoc : ℕ
error_ber_unexpected_eoc = error_class_internal + 57

abbrev pub error_der_indefinite_length : ℕ
error_der_indefinite_length = error_class_internal + 58

abbrev pub error_incorrect_asn1_syntax : ℕ
error_incorrect_asn1_syntax = error_class_internal + 59
