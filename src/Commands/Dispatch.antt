-- ===== src/Commands/Dispatch.antt =====
-- main.go: the choice of a command and the profiles of a run of it.
pub mod Closed
mod Tests
use vegeta.Prelude.{
  ℕ, ◌+◌, ◌≡◌, refl, sym, ap, ◌∙◌, Bool, true, false, Option, none, some, List, [], ◌∷◌, ◌++◌, map,
  arith, if◌then◌else◌, ◌==◌,
}
use vegeta.Prelude.Int.{ℤ}
use vegeta.Prelude.Text.{Text, codes, is_empty, trim_space, split, has_prefix, text_eq, text_key}
use vegeta.Prelude.Map.{lookup}

-- What stands under a `defer`.
pub data Deferred : Type 0 where
  close_file : Text → Deferred
  stop_cpu_profile : Deferred
  write_heap_profile : Text → Deferred

-- How a command ends: it returns with an error or without one, or it ends the process itself with a code, as
-- its flag set does on `-h` and on a bad flag.
pub data Ended : Type 0 where
  returns : Option Text → Ended
  exits : ℕ → Ended

-- How a run ends: `main` returns, or the process is ended with a code before that.
pub data Exit : Type 0 where
  at_return : Exit
  before_return : ℕ → Exit

-- What a run does, in order. A call of `log.Fatal` logs and exits with the code 1.
pub data Action : Type 0 where
  print_version : Action
  print_usage : Action
  set_max_procs : ℤ → Action
  create_file : Text → Action
  start_cpu_profile : Text → Action
  run_command : Text → List Text → Action
  log_fatal : Text → Action
  deferred : Deferred → Action

-- The flags before the command, as they are parsed, and what follows them.
pub record Global : Type 0 where
  pub cpus : ℤ
  pub profile : Text
  pub version : Bool
  pub args : List Text

-- What the `switch` starts and defers for a profile in this file, the last deferred call first.
unfoldable pub start_profile : Text → Text → List Action × List Deferred
unfolding has_prefix
start_profile prof name =
    if has_prefix (codes "cpu") prof
    then (start_cpu_profile name ∷ [], stop_cpu_profile ∷ close_file name ∷ [])
    else if has_prefix (codes "heap") prof
    then ([], write_heap_profile name ∷ close_file name ∷ [])
    else ([], close_file name ∷ [])

-- The error of `os.Create` for a file, if it has one.
module _ (create : Text → Option Text) where
  -- The loop over the profiles, with the deferred calls, the last one first, if it does not exit.
  unfoldable pub open_profiles : List Text → List Action × Option (List Deferred)
  unfolding start_profile trim_space
  open_profiles [] = ([], some [])
  open_profiles (p ∷ ps) =
      let prof = trim_space p in
      let name = prof ++ codes ".pprof" in
      let rest = open_profiles ps in
      if is_empty prof then rest else elim (create name) [
        | some e ↦ (log_fatal e ∷ [], none)
        | none ↦ (
          create_file name ∷ (start_profile prof name).0 ++ rest.0,
          elim (rest.1) [ none ↦ none | some ds ↦ some (ds ++ (start_profile prof name).1) ],
        )
      ]

  -- The commands by their names, each with how it ends.
  module _ (commands : List (Text × (List Text → Ended))) where
    -- A command that ended in this way: the deferred calls run only where `main` returns.
    abbrev pub ended : Text → List Text → List Deferred → Ended → List Action × Exit
    ended name args ds (returns (some e)) =
        (run_command name args ∷ log_fatal e ∷ [], before_return 1)
    ended name args ds (returns none) = (run_command name args ∷ map deferred ds, at_return)
    ended name args ds (exits code) = (run_command name args ∷ [], before_return code)

    -- A command that was found or not.
    abbrev pub run_found :
        Text → List Text → List Deferred → Option (List Text → Ended) → List Action × Exit
    run_found name args ds none =
        (log_fatal (codes "Unknown command: " ++ name) ∷ [], before_return 1)
    run_found name args ds (some fn) = ended name args ds (fn args)

    -- What follows the profiles.
    unfoldable pub dispatch : List Text → List Deferred → List Action × Exit
    dispatch [] ds = (print_usage ∷ [], before_return 1)
    dispatch (name ∷ args) ds = run_found name args ds (lookup name commands)

    unfoldable pub main : Global → List Action × Exit
    unfolding open_profiles dispatch split
    main g =
        if g.version
        then (print_version ∷ [], at_return)
        else (let opened = open_profiles (split (b',') g.profile) in
            let after : List Action × Exit = elim (opened.1) [
              | none ↦ ([], before_return 1)
              | some ds ↦ dispatch g.args ds
            ] in
            (set_max_procs g.cpus ∷ opened.0 ++ after.0, after.1))
