-- ===== src/Ticket/NewTicket.antt =====
-- The NewSessionTicket message of a server is read as it was built.
use picotls.Prelude.{
  ℕ, zero, suc, ◌^◌, ◌<◌, ◌≡◌, refl, ap, ◌∙◌, false, List, [], ◌∷◌, ◌++◌, append-nil, length, sym,
  ok, arith, ◌==◌, Bool-cases, inl, inr, ==→eq,
}
use picotls.Wire.{bytes, decode32, push32, push_block, block_prefix, low_bytes, push16}
use picotls.Wire.Integers.{decode-push}
use picotls.Wire.Blocks.{decode_open_block-push_block, decode_open_block-body}
use picotls.Extensions.{
  buffer_push_extension, call_on_extension, init_extension_bitmap, forbid, is_allowed,
  extension_bitmap_is_set, extension_bitmap_set, extension_rounds, decode_extensions,
}
use picotls.Extensions.Pushed.{extension_rounds-buffer_push_extension, decode_extensions-push_block}
use picotls.Ticket.{
  OnExtension, take_some, ticket_extension, ticket_extensions, push_new_session_ticket,
  decode_new_session_ticket,
}

-- The callback lets the early_data extension pass.
abbrev pub LetsEarlyData : OnExtension → ℕ → Type 0
LetsEarlyData on_extension max = call_on_extension on_extension 4 42 (push32 max) ≡ ok tt

early_data_free : extension_bitmap_is_set (init_extension_bitmap 4) 42 ≡ false
unfolding extension_bitmap_is_set init_extension_bitmap forbid is_allowed extension_bitmap_set
early_data_free = refl

ticket_extension-push32 :
    (on_extension : OnExtension) (max : ℕ)
    → max < 2 ^ 32
    → LetsEarlyData on_extension max
    → ticket_extension on_extension 0 42 (push32 max) ≡ ok (max, [])
unfolding ticket_extension
ticket_extension-push32 on_extension max h lets =
    rw lets (ap (λ bs. decode32 bs) (sym (append-nil (push32 max))) ∙ (decode-push max []).2 h)

nothing_left :
    (on_extension : OnExtension) (n max : ℕ) (bits : List ℕ)
    → extension_rounds (ticket_extension on_extension) n bits max [] ≡ ok (max, [])
unfolding extension_rounds
nothing_left on_extension zero max bits = refl
nothing_left on_extension (suc n) max bits = refl

eight_bytes : (max : ℕ) → length (buffer_push_extension 42 (push32 max)) ≡ 8
unfolding buffer_push_extension push16 push_block block_prefix low_bytes push32
eight_bytes max = refl

four_bytes : (max : ℕ) → length (push32 max) ≡ 4
unfolding push32
four_bytes max = refl

one_extension :
    (on_extension : OnExtension) (max : ℕ)
    → max < 2 ^ 32
    → LetsEarlyData on_extension max
    → extension_rounds
        (ticket_extension on_extension)
        (length (buffer_push_extension 42 (push32 max)))
        (init_extension_bitmap 4)
        0
        (buffer_push_extension 42 (push32 max))
      ≡ ok (max, [])
one_extension on_extension max h lets =
    let bits : List ℕ = init_extension_bitmap 4 in
    let ext : List ℕ = buffer_push_extension 42 (push32 max) in
    ap (λ (n : ℕ). extension_rounds (ticket_extension on_extension) n bits 0 ext) (eight_bytes max)
    ∙ ap (extension_rounds (ticket_extension on_extension) 8 bits 0) (sym (append-nil ext))
    ∙ extension_rounds-buffer_push_extension (ticket_extension on_extension) 7 bits 0 max 42
        (push32 max) [] (omega arith) (omega (arith, four_bytes max)) early_data_free
        (ticket_extension-push32 on_extension max h lets)
    ∙ nothing_left on_extension 7 max (extension_bitmap_set bits 42)

decode_extensions-ticket_extensions :
    (on_extension : OnExtension) (max : ℕ)
    → max < 2 ^ 32
    → LetsEarlyData on_extension max
    → decode_extensions
        (ticket_extension on_extension)
        4
        0
        (push_block (bytes 2) (ticket_extensions max))
      ≡ ok max
unfolding ticket_extensions
decode_extensions-ticket_extensions on_extension max h lets = elim (Bool-cases (max == 0)) [
  | inl none_pushed ↦ rw none_pushed (
      decode_extensions-push_block (ticket_extension on_extension) 4 0 0 [] (omega arith)
        (nothing_left on_extension 0 0 (init_extension_bitmap 4))
      ∙ ap ok (sym (==→eq max 0 none_pushed)))
  | inr pushed ↦ rw pushed (
      decode_extensions-push_block (ticket_extension on_extension) 4 0 max
        (buffer_push_extension 42 (push32 max)) (omega (arith, eight_bytes max))
        (one_extension on_extension max h lets))
]

pub take_some_lem : (src : List ℕ) → 0 < length src → take_some src ≡ ok (src, [])
unfolding take_some
take_some_lem [] h = absurd (omega arith)
take_some_lem (b ∷ src) h = rw (nonzero (length src)) refl
  where
    nonzero : (n : ℕ) → (suc n == 0) ≡ false
    nonzero n = ground arith

-- What is pushed is read back, with an empty nonce.
pub decode_new_session_ticket-push :
    (on_extension : OnExtension) (lifetime age_add : ℕ) (ticket : List ℕ) (max : ℕ)
    → lifetime < 2 ^ 32
    → age_add < 2 ^ 32
    → 0 < length ticket
    → length ticket < 2 ^ 16
    → max < 2 ^ 32
    → LetsEarlyData on_extension max
    → decode_new_session_ticket on_extension (push_new_session_ticket lifetime age_add ticket max)
      ≡ ok (record {
        lifetime = lifetime;
        age_add = age_add;
        nonce = [];
        ticket = ticket;
        max_early_data_size = max;
      })
unfolding decode_new_session_ticket push_new_session_ticket
decode_new_session_ticket-push on_extension lifetime age_add ticket max hl ha some small hm lets =
    let tail3 : List ℕ = push_block (bytes 2) (ticket_extensions max) in
    let tail2 : List ℕ = push_block (bytes 2) ticket ++ tail3 in
    let tail1 : List ℕ = push_block (bytes 1) [] ++ tail2 in
    rw ((decode-push lifetime (push32 age_add ++ tail1)).2 hl) (
      rw ((decode-push age_add tail1).2 ha) (
        rw (decode_open_block-push_block (bytes 1) [] tail2 (omega arith, omega arith)) (
          rw
            (decode_open_block-body (bytes 2) take_some ticket tail3 ticket (small, omega arith)
              (take_some_lem ticket some))
            (rw (decode_extensions-ticket_extensions on_extension max hm lets) refl))))
