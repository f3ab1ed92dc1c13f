-- ===== src/Lib.antt =====
-- picotls, a TLS 1.3 library in C: a verification library for its core.
--
-- The program. lib/picotls.c is the protocol: a record layer cuts the input into records and opens
-- them, a reassembly buffer cuts handshake records into messages, a dispatcher runs one handler per
-- message and state, and what is sent goes back through the record protection. All of it reads and
-- writes through the macros of include/picotls.h. lib/pembase64.c reads PEM files,
-- lib/asn1.c checks the elements in them, and lib/ffx.c encrypts short numbers of any bit length.
-- The cryptography is behind tables of functions that other libraries fill.
--
-- The files.
--   Prelude     shared names: Boolean tests, lists measured by native numbers, results, bit laws
--   Code        the return codes of include/picotls.h
--   Wire        integers, QUIC integers and length-prefixed blocks: include/picotls.h and the
--               ptls_decode_ functions of lib/picotls.c
--   Record      parse_record_header and parse_record of lib/picotls.c
--   Message     handle_handshake_record and message_buffer_is_overflow of lib/picotls.c
--   Protect     build_aad, aead_encrypt, aead_decrypt, buffer_push_encrypted_records, the padding in
--               handle_input, and ptls_get_record_overhead of lib/picotls.c
--   Handshake   the states of lib/picotls.c, handle_client_handshake_message and
--               handle_server_handshake_message, ptls_get_read_epoch; the handlers of single messages
--               are arguments, and what they do to the state is a relation read off their assignments
--   Send        buffer_encrypt_record, the record message emitter, update_traffic_key,
--               update_send_key, ptls_send, ptls_update_key and ptls_send_alert of lib/picotls.c
--   Connection  handle_input, handle_alert and ptls_receive of lib/picotls.c, over Record, Message,
--               Protect and Handshake
--   Base64      ptls_base64_encode and ptls_base64_decode of lib/pembase64.c
--   Pem         ptls_get_pem_object, ptls_load_pem_objects and ptls_load_certificates of
--               lib/pembase64.c, over Base64
--   Ffx         lib/ffx.c, over a cipher that is an argument
--   Asn1        lib/asn1.c: the readers of types and lengths, and ptls_asn1_validation
--   Buffer      ptls_buffer_reserve and ptls_buffer__do_pushv of lib/picotls.c
--   Extensions  the bitmap of extensions, decode_open_extensions and decode_extensions of
--               lib/picotls.c
--   Hkdf        the HMAC contexts, ptls_hkdf_extract, ptls_hkdf_expand and hkdf_expand_label of
--               lib/picotls.c, over a hash that is an argument
--   KeySchedule key_schedule_new, key_schedule_extract, key_schedule_select_one, the transcript hash
--               and the derivations of secrets of lib/picotls.c, over Hkdf
--   Finished    calc_verify_data, verify_finished, send_finished, mem_equal and
--               build_certificate_verify_signdata of lib/picotls.c, over KeySchedule
--   Ticket      the session tickets of lib/picotls.c: decode_new_session_ticket,
--               decode_stored_session_ticket, encode_session_identifier, decode_session_identifier;
--               Ticket/Exchange has send_session_ticket and client_handle_new_session_ticket
--   Hello       decode_server_hello, push_key_share_entry, decode_key_share_entry, and the ServerHello
--               that server_handle_hello of lib/picotls.c pushes
--   Raw         begin_raw_message, commit_raw_message and ptls_handle_message of lib/picotls.c
--   Tests       the theorems at concrete inputs
--
-- The correspondence. A pointer pair (src, end), a buffer up to `off` and a C string up to its NUL
-- are lists of bytes. An `int` that is returned is a number of Code, or an `err` of a Result. The
-- fields of ptls_t that a function changes are arguments and results; a base that is NULL is `none`.
-- A macro that takes code (`block`) is a function that takes a function. Memory is a function `grow`
-- from the offset and the wanted bytes to whether the allocation succeeds. A loop is structural
-- recursion on its input, or on fuel that the length of the input bounds: every round takes a byte
-- at least, so `length src` rounds are enough, and the theorems are about functions that pass just
-- that. The recursion on ASN.1 elements has the message's size as fuel, since a part is shorter than
-- the element it stands in; the doubling of a buffer's capacity has 54 rounds, which lead from 1024
-- bytes to 2 ^ 63; hkdf_expand has a round per byte of output,
-- and the loop over the objects of a PEM file one per line. Unsigned arithmetic keeps its
-- wrap-around where a value can reach it.
--
-- Not modelled: the cryptographic bindings (lib/openssl.c, lib/fusion.c, lib/uecc.c, lib/cifra.c,
-- lib/ptlsbcrypt.c), which only call libraries that are not read here; an AEAD is an argument with
-- the laws of AeadLaws, a hash one with the laws of HashLaws, the cipher of FFX a function. Memory
-- that runs out while a send buffer grows, and the update_traffic_key callback. In lib/picotls.c: the
-- bodies of the other handlers, with the ClientHello, certificates and ESNI; the exporter;
-- ptls_handshake. An assertion that fails has no value: that a key of HMAC is no longer than a block
-- is a premise of the theorems on HKDF. The key loader lib/minicrypto-pem.c and
-- lib/certificate_compression.c. Tracing, logging, the release of memory, and the command line tool.
pub mod Prelude
pub mod Code
pub mod Wire
pub mod Record
pub mod Message
pub mod Protect
pub mod Handshake
pub mod Send
pub mod Connection
pub mod Base64
pub mod Ffx
pub mod Asn1
pub mod Hkdf
pub mod KeySchedule
pub mod Finished
pub mod Ticket
pub mod Hello
pub mod Raw
pub mod Pem
pub mod Extensions
pub mod Buffer
pub mod Tests
