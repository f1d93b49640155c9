-- ===== src/Metrics/Errors.antt =====
-- The errors of the metrics: the set of those seen and the list in the order of their first results.
use vegeta.Prelude.{
  ℕ, ◌+◌, ◌≡◌, refl, Bool, false, not, ◌&&◌, ◌||◌, Option, none, some, List, [], ◌∷◌, ◌++◌,
  if◌then◌else◌, arith, ◌∙◌,
}
use vegeta.Prelude.Text.{Text, text_key, text_eq, text_eq_iff, is_empty}
use vegeta.Prelude.Map.{lookup, lookup-assign}
use vegeta.Float.{Float64}
use vegeta.Results.{Result}
use vegeta.Metrics.{Estimator, Metrics, blank, made, init, tally_up, note_error, add_counts}
use vegeta.Metrics.Counts.{collected}

-- How often a text stands in a list.
abbrev pub occurs : Text → List Text → ℕ
occurs e [] = 0
occurs e (x ∷ xs) = (if text_eq x e then 1 else 0) + occurs e xs

-- Whether some result has the error.
abbrev pub reported : Text → List Result → Bool
reported e [] = false
reported e (r ∷ rs) = text_eq r.error e || reported e rs

occurs-concat :
    (e x : Text) (xs : List Text)
    → occurs e (xs ++ x ∷ []) ≡ occurs e xs + (if text_eq x e then 1 else 0)
occurs-concat e x [] = omega arith
occurs-concat e x (y ∷ xs) = omega (arith, occurs-concat e x xs)

abbrev is_there {ℓ} : {A : Type ℓ} → Option A → ℕ
is_there none = 0
is_there (some _) = 1

module _ (fl : Float64) (est : Estimator fl) where
  lookup-note_error :
      (e : Text) (r : Result) (m : Metrics fl est)
      → is_there (lookup e (made (note_error fl est r m).error_set)) ≡ (
          if not (is_empty r.error) && text_eq r.error e
          then 1
          else is_there (lookup e (made m.error_set)))
  unfolding note_error
  lookup-note_error e r m =
      ground (arith, lookup-assign r.error e (tt {0}) (made m.error_set), text_eq_iff r.error e)

  occurs-note_error :
      (e : Text) (r : Result) (m : Metrics fl est)
      → occurs e (made m.errors) ≡ is_there (lookup e (made m.error_set))
      → occurs e (made (note_error fl est r m).errors)
        ≡ is_there (lookup e (made (note_error fl est r m).error_set))
  unfolding note_error
  occurs-note_error e r m h = ground (
    arith,
    lookup-assign r.error e (tt {0}) (made m.error_set),
    text_eq_iff r.error e,
    occurs-concat e r.error (made m.errors),
  )

  add_counts-errors :
      (m : Metrics fl est) (r : Result)
      → (add_counts fl est m r ≡ note_error fl est r (tally_up fl est (init fl est m) r))
        × ((tally_up fl est (init fl est m) r).errors ≡ some (made m.errors))
        × ((tally_up fl est (init fl est m) r).error_set ≡ some (made m.error_set))
  unfolding add_counts tally_up init
  add_counts-errors m r = (refl, refl, refl)

  -- The list holds what the set holds.
  agree :
      (e : Text) (rs : List Result)
      → let m = collected fl est rs in
        (occurs e (made m.errors) ≡ is_there (lookup e (made m.error_set)))
        × (is_there (lookup e (made m.error_set))
            ≡ (if not (is_empty e) && reported e rs then 1 else 0))
  unfolding collected
  agree e [] = unfold blank lookup in ground arith
  agree e (r ∷ rs) =
      let m = collected fl est rs in
      let ready = tally_up fl est (init fl est m) r in
      let ih = agree e rs in
      let parts = add_counts-errors m r in
      ground
        (arith, occurs-note_error e r ready, lookup-note_error e r ready, text_eq_iff r.error e)

  -- After any results, the errors list each error that some result has once, and no other and no empty
  -- text.
  pub collected_errors :
      (e : Text) (rs : List Result)
      → occurs e (made (collected fl est rs).errors)
        ≡ (if not (is_empty e) && reported e rs then 1 else 0)
  collected_errors e rs = let (list, set) = agree e rs in list ∙ set
