-- ===== src/Commands/Signals.antt =====
-- attack.go: what a signal does to the results of `vegeta attack`.
use vegeta.Prelude.{Bool, true, false, none, some, List, [], ◌∷◌}
use vegeta.Commands.{AttackEvent, signalled, received, closed, targeter_failed}

module _ {R : Type 0} where
  abbrev pub results_of : List (AttackEvent R) → List R
  results_of [] = []
  results_of (received r e ∷ es) = r ∷ results_of es
  results_of (signalled ∷ es) = results_of es
  results_of (targeter_failed ∷ es) = results_of es
  results_of (closed ∷ es) = results_of es

  -- Whether a signal or a failed targeter stops the attack.
  abbrev pub has_stopped : List (AttackEvent R) → Bool
  has_stopped [] = false
  has_stopped (signalled ∷ es) = true
  has_stopped (targeter_failed ∷ es) = true
  has_stopped (received r e ∷ es) = has_stopped es
  has_stopped (closed ∷ es) = has_stopped es

  -- From an attack that is stopped or not: no result fails to be encoded, the results are not yet closed, and
  -- no signal comes when the attack is stopped.
  abbrev pub Runs : Bool → List (AttackEvent R) → Type 0
  Runs stopped [] = Unit {0}
  Runs true (signalled ∷ es) = ⊥
  Runs false (signalled ∷ es) = Runs true es
  Runs stopped (targeter_failed ∷ es) = Runs true es
  Runs stopped (received r none ∷ es) = Runs stopped es
  Runs stopped (received r (some e) ∷ es) = ⊥
  Runs stopped (closed ∷ es) = ⊥
