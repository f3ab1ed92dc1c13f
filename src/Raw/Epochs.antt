-- ===== src/Raw/Epochs.antt =====
-- The offsets of the raw message interface cut the output by epoch.
use picotls.Prelude.{
  ℕ, zero, suc, ◌+◌, ◌≤◌, ◌<◌, ◌≡◌, ◌≢◌, refl, sym, ap, ◌∙◌, false, Option, none, some, List, [],
  ◌∷◌, ◌++◌, append_assoc, append-nil, ◌==◌, eq→==, if◌then◌else◌, length, length-append, get_or,
  get_or-append_right, arith,
}
use mathlib.Core.Option
use mathlib.Core.Path.{ap₂}
use picotls.Send.{message_body}
use picotls.Raw.{
  Emitter, Pushed, message_epoch, begin_raw_message, move_offsets, commit_raw_message,
  push_raw_message, push_raw_messages,
}
use picotls.Raw.Slices.{
  offsets_of, joined, append_at, EmptyAfter, move_offsets-append_at, joined-append_at,
  EmptyAfter-mono, EmptyAfter-append_at, length-append_at,
}

abbrev pub epoch_of : Pushed → ℕ
epoch_of m = message_epoch m.enc_epoch m.type

-- The messages of epoch `e`, in order.
abbrev pub by_epoch : ℕ → List Pushed → List ℕ
by_epoch e [] = []
by_epoch e (m ∷ ms) =
    let rest : List ℕ = by_epoch e ms in
    if epoch_of m == e then message_body m.type m.body ++ rest else rest

-- The parts from epoch `i` on, with the messages behind what they hold.
abbrev extend : ℕ → List (List ℕ) → List Pushed → List (List ℕ)
extend i [] ms = []
extend i (p ∷ ps) ms = (p ++ by_epoch i ms) ∷ extend (suc i) ps ms

-- The epochs do not go back, and there are four.
abbrev pub Rising : ℕ → List Pushed → Type 0
Rising e [] = Unit {0}
Rising e (m ∷ ms) = (e ≤ epoch_of m) × (epoch_of m ≤ 3) × Rising (epoch_of m) ms

differs : (a b : ℕ) → a ≢ b → (a == b) ≡ false
differs a b h = ground arith

by_epoch-other :
    (i : ℕ) (m : Pushed) (ms : List Pushed) → epoch_of m ≢ i → by_epoch i (m ∷ ms) ≡ by_epoch i ms
by_epoch-other i m ms h = rw (differs (epoch_of m) i h) refl

by_epoch-same :
    (i : ℕ) (m : Pushed) (ms : List Pushed)
    → epoch_of m ≡ i
    → by_epoch i (m ∷ ms) ≡ message_body m.type m.body ++ by_epoch i ms
by_epoch-same i m ms h = rw (eq→== (epoch_of m) i h) refl

extend-other :
    (i : ℕ) (ps : List (List ℕ)) (m : Pushed) (ms : List Pushed)
    → epoch_of m < i
    → extend i ps ms ≡ extend i ps (m ∷ ms)
extend-other i [] m ms h = refl
extend-other i (p ∷ ps) m ms h =
    ap₂ (λ q qs. (p ++ q) ∷ qs) (sym (by_epoch-other i m ms (λ e. omega (arith, e, h))))
      (extend-other (suc i) ps m ms (omega (arith, h)))

extend-append_at :
    (e i : ℕ) (ps : List (List ℕ)) (m : Pushed) (ms : List Pushed)
    → epoch_of m ≡ i + e
    → extend i (append_at e (message_body m.type m.body) ps) ms ≡ extend i ps (m ∷ ms)
extend-append_at e i [] m ms h = refl
extend-append_at zero i (p ∷ ps) m ms h =
    ap₂ (λ q qs. q ∷ qs)
      (append_assoc p (message_body m.type m.body) (by_epoch i ms)
        ∙ ap (λ q. p ++ q) (sym (by_epoch-same i m ms (omega (arith, h)))))
      (extend-other (suc i) ps m ms (omega (arith, h)))
extend-append_at (suc e) i (p ∷ ps) m ms h =
    ap₂ (λ q qs. (p ++ q) ∷ qs) (sym (by_epoch-other i m ms (λ same. omega (arith, same, h))))
      (extend-append_at e (suc i) ps m ms (omega (arith, h)))

-- An emitter whose buffer and offsets are those of the parts.
abbrev pub holding : List (List ℕ) → Emitter
holding ps = record { buf = joined ps; epoch_offsets = offsets_of 0 ps }

first_byte :
    (buf : List ℕ) (type : ℕ) (body : List ℕ)
    → get_or (buf ++ message_body type body) (length buf) 0 ≡ type
unfolding message_body
first_byte buf type body =
    get_or-append_right buf (message_body type body) (length buf) 0 0 (omega arith)

push_raw_message-holding :
    (ps : List (List ℕ)) (m : Pushed)
    → suc (epoch_of m) ≤ length ps
    → EmptyAfter (epoch_of m) ps
    → push_raw_message m.enc_epoch (holding ps) m.type m.body
      ≡ some (holding (append_at (epoch_of m) (message_body m.type m.body) ps))
unfolding push_raw_message begin_raw_message commit_raw_message
push_raw_message-holding ps m room after =
    let msg : List ℕ = message_body m.type m.body in
    let all : List ℕ = joined ps ++ msg in
    let put : List ℕ → Emitter = λ offsets. record { buf = all; epoch_offsets = offsets } in
    ap
      (λ (t : ℕ). Option.map put (
        move_offsets (suc (message_epoch m.enc_epoch t)) (length (joined ps)) (length all)
          (offsets_of 0 ps)))
      (first_byte (joined ps) m.type m.body)
    ∙ ap
        (λ (n : ℕ).
          Option.map put (move_offsets (suc (epoch_of m)) (length (joined ps)) n (offsets_of 0 ps)))
        (length-append (joined ps) msg)
    ∙ ap₂ (λ (b n : ℕ). Option.map put (move_offsets (suc (epoch_of m)) b n (offsets_of 0 ps)))
        (from_zero (length (joined ps)))
        (ap (λ (n : ℕ). n + length msg) (from_zero (length (joined ps))))
    ∙ ap (Option.map put) (move_offsets-append_at (epoch_of m) 0 msg ps room after)
    ∙ ap
        (λ (b : List ℕ).
          some (record { buf = b; epoch_offsets = offsets_of 0 (append_at (epoch_of m) msg ps) }))
        (sym (joined-append_at (epoch_of m) msg ps room after))
  where
    from_zero : (n : ℕ) → n ≡ 0 + n
    from_zero n = omega arith

extend-nil : (i : ℕ) (ps : List (List ℕ)) → ps ≡ extend i ps []
extend-nil i [] = refl
extend-nil i (p ∷ ps) = ap₂ (λ q qs. q ∷ qs) (sym (append-nil p)) (extend-nil (suc i) ps)

push_raw_messages-holding :
    (e : ℕ) (ps : List (List ℕ)) (ms : List Pushed)
    → length ps ≡ 4
    → EmptyAfter e ps
    → Rising e ms
    → push_raw_messages (holding ps) ms ≡ some (holding (extend 0 ps ms))
unfolding push_raw_messages
push_raw_messages-holding e ps [] size after rising = ap (λ qs. some (holding qs)) (extend-nil 0 ps)
push_raw_messages-holding e ps (m ∷ ms) size after (up, three, rising) =
    let msg : List ℕ = message_body m.type m.body in
    let after' : EmptyAfter (epoch_of m) ps = EmptyAfter-mono e (epoch_of m) ps up after in
    ap answer (push_raw_message-holding ps m (omega (arith, size, three)) after')
    ∙ push_raw_messages-holding (epoch_of m) (append_at (epoch_of m) msg ps) ms
        (length-append_at (epoch_of m) msg ps ∙ size)
        (EmptyAfter-append_at (epoch_of m) msg ps after') rising
    ∙ ap (λ qs. some (holding qs)) (extend-append_at (epoch_of m) 0 ps m ms (omega arith))
  where
    answer : Option Emitter → Option Emitter
    answer pushed = elim pushed [ none ↦ none | some self' ↦ push_raw_messages self' ms ]

-- From an empty buffer and offsets of 0, messages whose epochs do not go back, where a second
-- ClientHello under the early data's key counts as epoch 0, are pushed without an assertion
-- failing. The buffer then holds the messages of epoch 0, of 1, of 2 and of 3, each in order, and
-- entry `e` of `epoch_offsets` is where those of epoch `e` begin, the last one where they all end.
pub push_raw_messages-by_epoch :
    (ms : List Pushed)
    → Rising 0 ms
    → push_raw_messages (record { buf = []; epoch_offsets = 0 ∷ 0 ∷ 0 ∷ 0 ∷ 0 ∷ [] }) ms
      ≡ some (holding (by_epoch 0 ms ∷ by_epoch 1 ms ∷ by_epoch 2 ms ∷ by_epoch 3 ms ∷ []))
push_raw_messages-by_epoch ms rising =
    push_raw_messages-holding 0 ([] ∷ [] ∷ [] ∷ [] ∷ []) ms refl (refl, (refl, (refl, tt))) rising
