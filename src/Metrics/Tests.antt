-- ===== src/Metrics/Tests.antt =====
-- The metrics of three results, with an estimator that keeps what it was given last.
use vegeta.Prelude.{◌≡◌, refl}
use vegeta.Prelude.Int.{pos}
use vegeta.Prelude.Text.{codes, text_eq}
use vegeta.Float.Sample.{fixed}
use vegeta.Results.Sample.{samples}
use vegeta.Metrics.{Estimator, Metrics, made, blank, u64}
use vegeta.Metrics.Counts.{collected, collected_totals}
use vegeta.Metrics.Errors.{occurs, collected_errors}

abbrev newest : Estimator fixed
newest = record {
  State = fixed.F;
  new = fixed.of_uint 0;
  add = λ s x. x;
  get = λ s q. s;
  asked = λ s q. s;
}

abbrev three : Metrics fixed newest
three = collected fixed newest samples

collected_totals_example :
    (three.requests ≡ u64 3)
    × (three.successes ≡ u64 2)
    × (three.bytes_in.total ≡ u64 21)
    × (three.bytes_out.total ≡ u64 15)
collected_totals_example = collected_totals fixed newest samples

blank_min : (blank fixed newest).latencies.min ≡ pos 0
unfolding blank
blank_min = refl

collected_errors_example : occurs (codes "timeout") (made three.errors) ≡ 1
unfolding text_eq
collected_errors_example = collected_errors fixed newest (codes "timeout") samples
