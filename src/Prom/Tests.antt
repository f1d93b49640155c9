-- ===== src/Prom/Tests.antt =====
-- Counters as association lists, and the three results of the sample.
use vegeta.Prelude.{Bool, true, List, [], ◌∷◌, if◌then◌else◌}
use vegeta.Prelude.Text.{Text, codes}
use vegeta.Decimal.{format_uint}
use vegeta.Float.Sample.{fixed}
use vegeta.Outcome.{returns}
use vegeta.Prom
use vegeta.Prom.Observed.{same_values}

-- A counter as the function that gives the value of each child.
abbrev plain : Prom.Client fixed.F
plain = record {
  CounterVec = List Text → fixed.F;
  new_counter = λ desc us. fixed.of_uint 0;
  child_at = λ vs c. returns c;
  add_at = λ vs x c. returns (λ us. if same_values vs us then fixed.add (c us) x else c us);
  HistogramVec = List (List Text × fixed.F);
  new_histogram = λ desc. [];
  observe_at = λ vs x h. returns ((vs, x) ∷ h);
}

abbrev value : List Text → plain.CounterVec → fixed.F
value us c = c us

-- Every counter is fit for all labels.
abbrev AnyCounter : Prom.Desc → plain.CounterVec → Type 0
AnyCounter d c = Unit

abbrev AnyHistogram : Prom.Desc → plain.HistogramVec → Type 0
AnyHistogram d h = Unit

abbrev any_text : Text → Bool
any_text t = true

abbrev labels : List Text
labels = codes "GET" ∷ codes "http://a/" ∷ format_uint 200 ∷ []
