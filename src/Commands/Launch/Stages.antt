-- ===== src/Commands/Launch/Stages.antt =====
-- attack.go: how `attack` ends before the attack, and when it creates its output.
use vegeta.Prelude.{◌≡◌, ◌⊎◌, true, List, [], ◌∷◌, ◌++◌, All}
use vegeta.Outcome.{ok}
use vegeta.Commands.{Opened, std_in, std_out, created, opened, open_file}
use vegeta.Commands.Launch.{
  Opts, Source, Step, goes_on, stops, crashes, out_of_rounds, Action, Launched, World, prepare,
  open_output, launch,
}
use vegeta.Commands.Launch.Keeps.{HasEnded, then-Keeps, prepare-Keeps, open_output-Keeps}

-- The file was not created.
abbrev pub IsRead : Opened → Type 0
IsRead std_in = Unit
IsRead std_out = Unit
IsRead (created name) = ⊥
IsRead (opened name) = Unit

-- `attack` comes to the start of the attack, to an error or to a panic: the rounds that `ReadAllTargets`
-- is given do not run out, whatever the files hold.
pub launch-HasEnded : (w : World) (opts : Opts) → HasEnded (launch w opts).1
unfolding launch
launch-HasEnded w opts =
    (then-Keeps (λ f. Unit) (prepare w opts) (open_output w opts)
      (prepare-Keeps (λ f. Unit) w opts (λ name f e. tt))
      (λ source. open_output-Keeps (λ f. Unit) w opts source (λ name f e. tt)) [] tt).0

-- An action that opens nothing.
abbrev Quiet : {A : Type 0} → Action A → Type 0
Quiet act = (files : List Opened) → (act files).0 ≡ files

-- The attack was not launched.
abbrev pub Fails : {A : Type 0} → Step A → Type 0
Fails (goes_on a) = ⊥
Fails (stops e) = Unit
Fails crashes = Unit
Fails out_of_rounds = Unit

-- Where the output stands among the files: none is created, and the attack is not launched; or what is to
-- attack with was prepared, of files that were only read, and the file of the output is open, and none
-- behind it.
abbrev pub CreatesLast : World → Opts → List Opened × Step Launched → Type 0
CreatesLast w opts out =
    (All IsRead out.0 × Fails out.1)
    ⊎ ((before : List Opened) × (source : Source) × (f : Opened) × (prepare w opts []
          ≡ (before, goes_on source))
        × All IsRead before
        × (open_file w.create_error w.open_error opts.outputf true ≡ ok f)
        × (out.0 ≡ before ++ f ∷ []))
