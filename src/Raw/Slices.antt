-- ===== src/Raw/Slices.antt =====
-- Where the offsets cut the send buffer: parts by epoch.
use picotls.Prelude.{
  ℕ, zero, suc, ◌+◌, ◌≤◌, ◌≡◌, refl, sym, ap, ◌∙◌, some, List, [], ◌∷◌, ◌++◌, append_assoc,
  append-nil, ==_self, length, length-append, arith,
}
use mathlib.Core.Option
use picotls.Raw.{move_offsets}

-- The offsets of parts that follow each other from `base` on, with the end.
abbrev pub offsets_of : ℕ → List (List ℕ) → List ℕ
offsets_of base [] = base ∷ []
offsets_of base (p ∷ ps) = base ∷ offsets_of (base + length p) ps

abbrev pub joined : List (List ℕ) → List ℕ
joined [] = []
joined (p ∷ ps) = p ++ joined ps

-- `msg` at the end of part `e`.
abbrev pub append_at : ℕ → List ℕ → List (List ℕ) → List (List ℕ)
append_at e msg [] = []
append_at zero msg (p ∷ ps) = (p ++ msg) ∷ ps
append_at (suc e) msg (p ∷ ps) = p ∷ append_at e msg ps

abbrev AllEmpty : List (List ℕ) → Type 0
AllEmpty [] = Unit {0}
AllEmpty (p ∷ ps) = (p ≡ []) × AllEmpty ps

-- The parts behind part `e` are empty.
abbrev pub EmptyAfter : ℕ → List (List ℕ) → Type 0
EmptyAfter e [] = Unit {0}
EmptyAfter zero (p ∷ ps) = AllEmpty ps
EmptyAfter (suc e) (p ∷ ps) = EmptyAfter e ps

joined_empty : (ps : List (List ℕ)) → AllEmpty ps → joined ps ≡ []
joined_empty [] h = refl
joined_empty (p ∷ ps) (h, hs) = ap (λ q. q ++ joined ps) h ∙ joined_empty ps hs

-- Empty parts all stand at the same place.
move_empty :
    (base off : ℕ) (ps : List (List ℕ))
    → AllEmpty ps
    → move_offsets 0 base off (offsets_of base ps) ≡ some (offsets_of off ps)
unfolding move_offsets
move_empty base off [] h = rw (==_self base) refl
move_empty base off (p ∷ ps) (h, hs) =
    let size : length p ≡ 0 = ap length h in
    rw (==_self base) (
      ap (λ (b : ℕ). Option.map (λ rest. off ∷ rest) (move_offsets 0 base off (offsets_of b ps)))
        (omega (arith, size))
      ∙ ap (Option.map (λ rest. off ∷ rest)) (move_empty base off ps hs)
      ∙ ap (λ (b : ℕ). some (off ∷ offsets_of b ps)) (omega (arith, size)))

pub move_offsets-append_at :
    (e base : ℕ) (msg : List ℕ) (ps : List (List ℕ))
    → suc e ≤ length ps
    → EmptyAfter e ps
    → move_offsets
        (suc e)
        (base + length (joined ps))
        (base + length (joined ps) + length msg)
        (offsets_of base ps)
      ≡ some (offsets_of base (append_at e msg ps))
unfolding move_offsets
move_offsets-append_at e base msg [] h after = absurd (omega arith)
move_offsets-append_at zero base msg (p ∷ ps) h after =
    let start : ℕ = base + length p in
    ap
      (λ (b : ℕ).
        Option.map (λ rest. base ∷ rest) (move_offsets 0 b (b + length msg) (offsets_of start ps)))
      (omega (arith, length-append p (joined ps), ap length (joined_empty ps after)))
    ∙ ap (Option.map (λ rest. base ∷ rest)) (move_empty start (start + length msg) ps after)
    ∙ ap (λ (b : ℕ). some (base ∷ offsets_of b ps)) (omega (arith, length-append p msg))
move_offsets-append_at (suc e) base msg (p ∷ ps) h after =
    let start : ℕ = base + length p in
    ap
      (λ (b : ℕ).
        Option.map (λ rest. base ∷ rest)
          (move_offsets (suc e) b (b + length msg) (offsets_of start ps)))
      (omega (arith, length-append p (joined ps)))
    ∙ ap (Option.map (λ rest. base ∷ rest))
        (move_offsets-append_at e start msg ps (omega (arith, h)) after)

pub joined-append_at :
    (e : ℕ) (msg : List ℕ) (ps : List (List ℕ))
    → suc e ≤ length ps
    → EmptyAfter e ps
    → joined (append_at e msg ps) ≡ joined ps ++ msg
joined-append_at e msg [] h after = absurd (omega arith)
joined-append_at zero msg (p ∷ ps) h after =
    ap (λ q. (p ++ msg) ++ q) (joined_empty ps after)
    ∙ append-nil (p ++ msg)
    ∙ ap (λ q. q ++ msg) (sym (append-nil p))
    ∙ ap (λ q. (p ++ q) ++ msg) (sym (joined_empty ps after))
joined-append_at (suc e) msg (p ∷ ps) h after =
    ap (λ q. p ++ q) (joined-append_at e msg ps (omega (arith, h)) after)
    ∙ sym (append_assoc p (joined ps) msg)

AllEmpty-EmptyAfter : (e : ℕ) (ps : List (List ℕ)) → AllEmpty ps → EmptyAfter e ps
AllEmpty-EmptyAfter e [] h = tt
AllEmpty-EmptyAfter zero (p ∷ ps) h = h.1
AllEmpty-EmptyAfter (suc e) (p ∷ ps) h = AllEmpty-EmptyAfter e ps h.1

pub EmptyAfter-mono : (e e' : ℕ) (ps : List (List ℕ)) → e ≤ e' → EmptyAfter e ps → EmptyAfter e' ps
EmptyAfter-mono e e' [] h after = tt
EmptyAfter-mono zero zero (p ∷ ps) h after = after
EmptyAfter-mono zero (suc e') (p ∷ ps) h after = AllEmpty-EmptyAfter e' ps after
EmptyAfter-mono (suc e) zero (p ∷ ps) h after = absurd (omega arith)
EmptyAfter-mono (suc e) (suc e') (p ∷ ps) h after = EmptyAfter-mono e e' ps (omega arith) after

pub EmptyAfter-append_at :
    (e : ℕ) (msg : List ℕ) (ps : List (List ℕ))
    → EmptyAfter e ps
    → EmptyAfter e (append_at e msg ps)
EmptyAfter-append_at e msg [] after = tt
EmptyAfter-append_at zero msg (p ∷ ps) after = after
EmptyAfter-append_at (suc e) msg (p ∷ ps) after = EmptyAfter-append_at e msg ps after

pub length-append_at :
    (e : ℕ) (msg : List ℕ) (ps : List (List ℕ)) → length (append_at e msg ps) ≡ length ps
length-append_at e msg [] = refl
length-append_at zero msg (p ∷ ps) = refl
length-append_at (suc e) msg (p ∷ ps) = ap suc (length-append_at e msg ps)
