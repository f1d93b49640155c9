-- ===== src/Targets/ReadAll.antt =====
-- lib/targets.go: `ReadAllTargets`, over any targeter as a step on its own state.
pub mod Files
pub mod Ends
use vegeta.Prelude.{
  ℕ, zero, suc, Bool, true, false, Option, none, some, List, [], ◌∷◌, ◌++◌, if◌then◌else◌,
}
use vegeta.Prelude.Text.{is_empty}
use vegeta.Outcome.{Fallible, ok, err}
use vegeta.Targets.{Target, TargetError, no_targets}

-- `err == ErrNoTargets`.
abbrev pub is_end : TargetError → Bool
is_end no_targets = true
is_end _ = false

module _ {S : Type 0} (targeter : S → S × Fallible TargetError Target) where
  -- The loop, with its rounds as fuel: none when they run out.
  unfoldable pub read_loop : ℕ → S → List Target → Option (Fallible TargetError (List Target))
  read_loop zero s tgts = none
  read_loop (suc fuel) s tgts =
      let (s1, got) = targeter s in
      elim got [
        | ok tgt ↦ read_loop fuel s1 (tgts ++ tgt ∷ [])
        | err e ↦ some (if is_end e then ok tgts else err e)
      ]

  abbrev pub some_targets : Fallible TargetError (List Target) → Fallible TargetError (List Target)
  some_targets (err e) = err e
  some_targets (ok tgts) = if is_empty tgts then err no_targets else ok tgts

  -- `ReadAllTargets`.
  unfoldable pub read_all : ℕ → S → Option (Fallible TargetError (List Target))
  read_all fuel s = elim (read_loop fuel s []) [ none ↦ none | some got ↦ some (some_targets got) ]
