-- ===== src/Attack/Run.antt =====
-- Induction over a schedule.
use vegeta.Prelude.{◌≡◌, inl, inr, Option-cases, some, List, [], ◌∷◌, arith}
use mathlib.Core.Path.{subst}
use mathlib.Core.Option.{some-injective}
use vegeta.Attack.{Config, State, Event, move, step, run}

-- A step is a move of a process that has not crashed.
step-move :
    (c : Config) (s : State) (e : Event) {t : State} → step c s e ≡ some t → move c s e ≡ some t
unfolding step
step-move c s e h = ground arith

-- A run that succeeds is a step and a run from there.
run-cons :
    (c : Config) (s : State) (e : Event) (es : List Event) {t : State}
    → run c s (e ∷ es) ≡ some t
    → (r : State) × (step c s e ≡ some r) × (run c r es ≡ some t)
unfolding run
run-cons c s e es h = elim (Option-cases (step c s e)) [
  | inl out ↦ absurd (ground arith)
  | inr (r, found) ↦ (r, found, ground arith)
]

-- What every move keeps, every run keeps.
pub run_inv {κ} :
    (c : Config) (P : State → Type κ)
    → ((s : State) (e : Event) (t : State) → P s → move c s e ≡ some t → P t)
    → (s : State) (es : List Event) {t : State} → P s
    → run c s es ≡ some t
    → P t
run_inv c P keep s [] {t} h r = let e : s ≡ t = unfold run in some-injective s t r in subst P e h
run_inv c P keep s (e ∷ es) h r =
    let (t, one, rest) = run-cons c s e es r in
    run_inv c P keep t es (keep s e t h (step-move c s e one)) rest
