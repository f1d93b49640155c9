-- ===== src/Reports.antt =====
-- report.go: the loop of `vegeta report` and the choice of a report; lib/reporters.go: the interfaces
-- of a report.
pub mod Every
pub mod Choice
pub mod OfMetrics
mod Tests
use vegeta.Prelude.{
  ℕ, zero, suc, ◌<◌, ◌+◌, ◌≡◌, Bool, true, false, Option, none, some, List, [], ◌∷◌, if◌then◌else◌,
  ltb, length, drop,
}
use vegeta.Prelude.Int.{ℤ}
use vegeta.Prelude.Text.{Text, codes, is_empty, text_eq, has_prefix}
use vegeta.Outcome.{Outcome, returns, panics, Fallible, ok, err, ◌>>=◌}
use vegeta.Results.{Result}
use vegeta.Histogram.{BucketsError, unmarshal_text}

-- `Report` and `Closer`: a report without a `Close` stays as it is.
pub record Report : Type 1 where
  pub State : Type 0
  pub add : State → Result → Outcome State
  pub close : State → State

-- What `select` finds in a round: the interrupt; a tick, with the error of writing the report if there
-- is one; or else what the decoder gives.
pub data Event : Type 0 where
  interrupted : Event
  ticked : Option Text → Event
  decoded : Result → Event
  ended : Event  -- io.EOF
  failed : Text → Event

-- How far the command has come: it reads on, has ended without an error or with one, or has panicked.
pub data Ending : Type 0 where
  reading : Ending
  done : Ending
  stopped : Text → Ending
  crashed : Ending

module _ (rep : Report) where
  -- `writeReport` behind the loop, with the error of writing: the reports that are written.
  unfoldable pub finish : Option Text → rep.State → List rep.State × Ending
  finish none s = (rep.close s ∷ [], done)
  finish (some e) s = ([], stopped e)

  abbrev pub written : rep.State → List rep.State × Ending → List rep.State × Ending
  written s (reports, e) = (s ∷ reports, e)

  -- The loop over the rounds.
  unfoldable pub report_loop : Option Text → List Event → rep.State → List rep.State × Ending
  unfolding finish
  report_loop last [] s = ([], reading)
  report_loop last (interrupted ∷ es) s = finish last s
  report_loop last (ended ∷ es) s = finish last s
  report_loop last (failed e ∷ es) s = ([], stopped e)
  report_loop last (ticked (some e) ∷ es) s = ([], stopped e)
  report_loop last (ticked none ∷ es) s = written (rep.close s) (report_loop last es (rep.close s))
  report_loop last (decoded r ∷ es) s = elim (rep.add s r) [
    | panics ↦ ([], crashed)
    | returns s1 ↦ report_loop last es s1
  ]

-- The reports that `report` chooses from, with the buckets of their histograms.
pub data Kind : Type 0 where
  text_report : Kind
  json_report : Option (List ℤ) → Kind
  hdrplot_report : Kind
  histogram_report : List ℤ → Kind

pub data KindError : Type 0 where
  invalid_type : KindError
  deprecated : KindError
  bad_buckets : KindError
  wrong_buckets : BucketsError → KindError
  unknown_type : KindError

module _ (parse_duration : Text → Option ℤ) where
  -- `Buckets.UnmarshalText` of fresh buckets.
  unfoldable pub buckets_of : Text → Fallible KindError (List ℤ)
  buckets_of t = elim (unmarshal_text parse_duration [] t) [
    | ok bs ↦ ok bs
    | err e ↦ err (wrong_buckets e)
  ]

  -- The case of a type with the prefix `hist`.
  unfoldable pub choose_histogram : Text → Text → Fallible KindError Kind
  unfolding buckets_of
  choose_histogram typ buckets =
      if is_empty buckets
      then (if ltb (length typ) 6
          then err bad_buckets
          else (buckets_of (drop 4 typ) >>= λ bs. ok (histogram_report bs)))
      else (buckets_of buckets >>= λ bs. ok (histogram_report bs))

  -- The choice of a report by its type and the buckets.
  unfoldable pub choose : Text → Text → Fallible KindError Kind
  unfolding choose_histogram
  choose typ buckets =
      if ltb (length typ) 4
      then err invalid_type
      else if text_eq typ (codes "plot")
      then err deprecated
      else if text_eq typ (codes "text")
      then ok text_report
      else if text_eq typ (codes "json")
      then (if is_empty buckets
          then ok (json_report none)
          else (buckets_of buckets >>= λ bs. ok (json_report (some bs))))
      else if text_eq typ (codes "hdrplot")
      then ok hdrplot_report
      else if has_prefix (codes "hist") typ
      then choose_histogram typ buckets
      else err unknown_type
