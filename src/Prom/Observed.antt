-- ===== src/Prom/Observed.antt =====
-- lib/prom/prom.go: what the counters hold after an attack.
use vegeta.Prelude.{◌≡◌, Bool, true, false, List, [], ◌∷◌, ◌++◌, if◌then◌else◌, ◌&&◌, length, All}
use vegeta.Prelude.Text.{Text, text_eq}
use vegeta.Decimal.{format_uint}
use vegeta.Float.{Float64}
use vegeta.Outcome.{returns}
use vegeta.Results.{Result}
use vegeta.Prom

-- Two lists of label values are the same.
unfoldable pub same_values : List Text → List Text → Bool
same_values [] [] = true
same_values (v ∷ vs) (u ∷ us) = text_eq v u && same_values vs us
same_values _ _ = false

-- The label values of a result.
abbrev pub values_of : Result → List Text
values_of r = r.method ∷ r.url ∷ format_uint r.code ∷ []

module _ (fl : Float64) (client : Prom.Client (fl.F)) where
  -- What the client promises of the vectors that are made for some labels: with a value for each label
  -- that is a text in UTF-8, no call panics, `Add` adds to the child with these label values and changes no other, and making a
  -- child changes no value.
  pub record Counts (value : List Text → client.CounterVec → fl.F)
      (IsFor : Prom.Desc → client.CounterVec → Type 0)
      (IsShownFor : Prom.Desc → client.HistogramVec → Type 0) (is_utf8 : Text → Bool) : Type 0 where
    pub add-returns :
        (d : Prom.Desc) (vs : List Text) (x : fl.F) (c : client.CounterVec)
        → IsFor d c
        → length vs ≡ length d.labels
        → All (λ v. is_utf8 v ≡ true) vs
        → (c1 : client.CounterVec) × (client.add_at vs x c ≡ returns c1)
          × IsFor d c1
          × ((us : List Text)
              → value us c1 ≡ (if same_values vs us then fl.add (value us c) x else value us c))
    pub child-returns :
        (d : Prom.Desc) (vs : List Text) (c : client.CounterVec)
        → IsFor d c
        → length vs ≡ length d.labels
        → All (λ v. is_utf8 v ≡ true) vs
        → (c1 : client.CounterVec) × (client.child_at vs c ≡ returns c1)
          × IsFor d c1
          × ((us : List Text) → value us c1 ≡ value us c)
    pub observe-returns :
        (d : Prom.Desc) (vs : List Text) (x : fl.F) (h : client.HistogramVec)
        → IsShownFor d h
        → length vs ≡ length d.labels
        → All (λ v. is_utf8 v ≡ true) vs
        → (h1 : client.HistogramVec) × (client.observe_at vs x h ≡ returns h1) × IsShownFor d h1

  -- A number of each result with these label values, added up from the first on.
  abbrev pub added : (Result → fl.F) → List Text → List Result → fl.F → fl.F
  added f us [] x = x
  added f us (r ∷ rs) x = added f us rs (if same_values (values_of r) us then fl.add x (f r) else x)

  module _ (value : List Text → client.CounterVec → fl.F)
      (IsFor : Prom.Desc → client.CounterVec → Type 0)
      (IsShownFor : Prom.Desc → client.HistogramVec → Type 0) (is_utf8 : Text → Bool)
      (counts : Counts value IsFor IsShownFor is_utf8) where
    -- The method, the URL, the code and the error of a result are texts in UTF-8.
    abbrev pub IsLabelled : Result → Type 0
    IsLabelled r = All (λ v. is_utf8 v ≡ true) (values_of r ++ r.error ∷ [])

    -- The vectors are made for the labels of `NewMetrics`.
    pub record IsMade (pm : Prom.PromMetrics fl client) : Type 0 where
      pub ins_for : IsFor Prom.bytes_in_desc pm.bytes_in
      pub outs_for : IsFor Prom.bytes_out_desc pm.bytes_out
      pub latency_for : IsShownFor Prom.latency_desc pm.latency
      pub fails_for : IsFor Prom.fail_desc pm.fails

    -- One observation.
    abbrev Observed : List Text → Result → Prom.PromMetrics fl client → Type 0
    Observed us r pm =
        (pm1 : Prom.PromMetrics fl client) × (Prom.observe fl client pm r ≡ returns pm1)
        × IsMade pm1
        × (value us pm1.bytes_in ≡ (
            if same_values (values_of r) us
            then fl.add (value us pm.bytes_in) (fl.of_uint r.bytes_in)
            else value us pm.bytes_in))
        × (value us pm1.bytes_out ≡ (
            if same_values (values_of r) us
            then fl.add (value us pm.bytes_out) (fl.of_uint r.bytes_out)
            else value us pm.bytes_out))
        × (value us pm1.fails ≡ value us pm.fails)
