-- ===== src/Commands/Dispatch/Closed.antt =====
-- main.go: which files of profiles are closed.
use vegeta.Prelude.{
  ℕ, ◌+◌, ◌≡◌, Bool, true, false, Option, none, some, List, [], ◌∷◌, map, if◌then◌else◌,
}
use vegeta.Prelude.Text.{Text, text_eq, text_key}
use vegeta.Commands.Dispatch.{
  Deferred, close_file, Action, create_file, deferred, Exit, at_return, before_return,
}

abbrev pub is_created : Text → Action → Bool
is_created n (create_file f) = text_eq n f
is_created n _ = false

abbrev pub is_closed : Text → Action → Bool
is_closed n (deferred (close_file f)) = text_eq n f
is_closed n _ = false

abbrev pub is_return : Exit → Bool
is_return at_return = true
is_return (before_return code) = false

abbrev pub count : (Action → Bool) → List Action → ℕ
count p [] = 0
count p (a ∷ acts) = (if p a then 1 else 0) + count p acts

-- Nothing is closed yet, and the deferred calls close what was created.
abbrev Opens : Text → List Action × Option (List Deferred) → Type 0
Opens n (acts, none) = count (is_closed n) acts ≡ 0
Opens n (acts, some ds) =
    (count (is_closed n) acts ≡ 0)
    × (count (is_closed n) (map deferred ds) ≡ count (is_created n) acts)

-- What comes after the profiles creates nothing, and closes what is deferred exactly if `main` returns.
abbrev Closes : Text → List Deferred → List Action × Exit → Type 0
Closes n ds (acts, how) =
    (count (is_created n) acts ≡ 0)
    × (count (is_closed n) acts
        ≡ (if is_return how then count (is_closed n) (map deferred ds) else 0))
