-- ===== src/Hello/Kind.antt =====
-- A ServerHello stays of its kind, a retry or not, whatever its extensions are.
use picotls.Prelude.{
  ℕ, ◌≡◌, refl, ◌∙◌, Bool, true, false, Option, some, List, [], ◌==◌, if◌then◌else◌, Result, ok,
  err, guard, ◌>>◌, ◌>>=◌,
}
use mathlib.Core.Path.{subst}
use picotls.Code.{alert_decode_error, alert_illegal_parameter}
use picotls.Wire.{bytes, decode16, decode_block, is_empty}
use picotls.Extensions.{call_on_extension}
use picotls.KeySchedule.Fed.{WhenOk}
use picotls.Ticket.{OnExtension, take_some}
use picotls.Hello.{
  HelloBody, peerkey, retry_request, HelloExts, decode_key_share_entry, is_own_group,
  version_extension, key_share_extension, cookie_extension, psk_extension, hello_extension,
  server_hello_extension,
}

abbrev pub is_retry : HelloBody → Bool
is_retry (peerkey _) = false
is_retry (retry_request _ _) = true

-- Every branch of the switch leaves the kind of the message as it is.
abbrev SameKind : Bool → HelloExts × List ℕ → Type 0
SameKind retry (st, rest) = is_retry st.body ≡ retry

pub if-WhenOk {ℓ κ} :
    {A : Type ℓ} (P : A → Type κ) (b : Bool) (x y : Result A)
    → WhenOk P x
    → WhenOk P y
    → WhenOk P (if b then x else y)
if-WhenOk P true x y hx hy = hx
if-WhenOk P false x y hx hy = hy

pub bind-WhenOk {ℓ ℓ' κ} :
    {A : Type ℓ} {B : Type ℓ'} (P : B → Type κ) (first : Result A) (rest : A → Result B)
    → ((a : A) → WhenOk P (rest a))
    → WhenOk P (first >>= rest)
bind-WhenOk P (err code) rest h = tt
bind-WhenOk P (ok a) rest h = h a

pub check-WhenOk {ℓ κ} :
    {B : Type ℓ} (P : B → Type κ) (first : Result (Unit {0})) (rest : Result B)
    → WhenOk P rest
    → WhenOk P (first >> rest)
check-WhenOk P (err code) rest h = tt
check-WhenOk P (ok passed) rest h = h

keeps_kind-version :
    (st : HelloExts) (src : List ℕ)
    → WhenOk (SameKind (is_retry st.body)) (version_extension st src)
unfolding version_extension
keeps_kind-version st src =
    bind-WhenOk (SameKind (is_retry st.body)) (decode16 src)
      (λ r. ok (record st { found_version = r.0 }, r.1)) (λ r. refl)

keeps_kind-key_share :
    (key_share : Option ℕ) (st : HelloExts) (body : HelloBody) (src : List ℕ)
    → WhenOk (SameKind (is_retry body)) (key_share_extension key_share st body src)
unfolding key_share_extension
keeps_kind-key_share key_share st (retry_request group cookie) src =
    bind-WhenOk (SameKind true) (decode16 src)
      (λ r. ok (record st { body = retry_request r.0 cookie }, r.1)) (λ r. refl)
keeps_kind-key_share key_share st (peerkey key) src =
    bind-WhenOk (SameKind false) (decode_key_share_entry src) _ (λ r.
      check-WhenOk (SameKind false) (guard (is_empty r.1) alert_decode_error) _ (
        check-WhenOk (SameKind false) (guard (is_own_group key_share r.0.0) alert_illegal_parameter)
          (ok (record st { body = peerkey (some r.0.1) }, r.1)) refl))

keeps_kind-cookie :
    (st : HelloExts) (body : HelloBody) (src : List ℕ)
    → WhenOk (SameKind (is_retry body)) (cookie_extension st body src)
unfolding cookie_extension
keeps_kind-cookie st (retry_request group cookie) src =
    bind-WhenOk (SameKind true) (decode_block (bytes 2) take_some src) _ (λ r. refl)
keeps_kind-cookie st (peerkey key) src = tt

keeps_kind-psk :
    (st : HelloExts) (src : List ℕ) (body : HelloBody)
    → st.body ≡ body
    → WhenOk (SameKind (is_retry st.body)) (psk_extension st body src)
unfolding psk_extension
keeps_kind-psk st src (retry_request group cookie) e = tt
keeps_kind-psk st src (peerkey key) e =
    bind-WhenOk (SameKind (is_retry st.body)) (decode16 src) _ (λ r. refl)

hello_extension-WhenOk :
    (key_share : Option ℕ) (st : HelloExts) (t : ℕ) (src : List ℕ)
    → WhenOk (SameKind (is_retry st.body)) (hello_extension key_share st t src)
unfolding hello_extension
hello_extension-WhenOk key_share st t src =
    let P = SameKind (is_retry st.body) in
    if-WhenOk P (t == 43) (version_extension st src) _ (keeps_kind-version st src) (
      if-WhenOk P (t == 51) (key_share_extension key_share st st.body src) _
        (keeps_kind-key_share key_share st st.body src)
        (if-WhenOk P (t == 44) (cookie_extension st st.body src) _
          (keeps_kind-cookie st st.body src)
          (if-WhenOk P (t == 41) (psk_extension st st.body src) (ok (st, []))
            (keeps_kind-psk st src st.body refl) refl)))

-- A retry that was announced by the random value stays one, and nothing else becomes one.
pub kind_kept :
    (on_extension : OnExtension) (key_share : Option ℕ) (retry : Bool) (st st' : HelloExts) (t : ℕ)
    (src : List ℕ)
    → is_retry st.body ≡ retry
    → server_hello_extension on_extension key_share st t src ≡ ok (st', [])
    → is_retry st'.body ≡ retry
unfolding server_hello_extension
kind_kept on_extension key_share retry st st' t src h e =
    subst (WhenOk (SameKind (is_retry st.body))) e (
      check-WhenOk (SameKind (is_retry st.body)) (call_on_extension on_extension 2 t src)
        (hello_extension key_share st t src) (hello_extension-WhenOk key_share st t src))
    ∙ h
