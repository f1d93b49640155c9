-- ===== src/Prom.antt =====
-- lib/prom/prom.go: the Prometheus metrics of an attack. The vectors and the registry of the Prometheus
-- client are parameters.
pub mod Observed
mod Tests
use vegeta.Prelude.{
  ℕ, Bool, true, false, Option, none, some, List, [], ◌∷◌, ◌++◌, ◌==◌, length, if◌then◌else◌,
}
use vegeta.Prelude.Text.{Text, codes, is_empty}
use vegeta.Decimal.{format_uint}
use vegeta.Float.{Float64, seconds}
use vegeta.Outcome.{Outcome, returns, panics}
use vegeta.Results.{Result}

-- The options of a vector that the program sets, with its labels.
pub record Desc : Type 0 where
  pub name : Text
  pub help : Text
  pub labels : List Text

-- `CounterVec` and `HistogramVec`: `child_at` is `WithLabelValues`, which makes a child that is not there
-- and may panic; `add_at` and `observe_at` are it with `Add` and `Observe` of the child.
pub record Client (F : Type 0) : Type 1 where
  pub CounterVec : Type 0
  pub new_counter : Desc → CounterVec
  pub child_at : List Text → CounterVec → Outcome CounterVec
  pub add_at : List Text → F → CounterVec → Outcome CounterVec
  pub HistogramVec : Type 0
  pub new_histogram : Desc → HistogramVec
  pub observe_at : List Text → F → HistogramVec → Outcome HistogramVec

abbrev pub base_labels : List Text
base_labels = codes "method" ∷ codes "url" ∷ codes "status" ∷ []

abbrev pub latency_desc : Desc
latency_desc = record {
  name = codes "request_seconds";
  help = codes "Request latency";
  labels = base_labels;
}

abbrev pub bytes_in_desc : Desc
bytes_in_desc = record {
  name = codes "request_bytes_in";
  help = codes "Bytes received from servers as response to requests";
  labels = base_labels;
}

abbrev pub bytes_out_desc : Desc
bytes_out_desc = record {
  name = codes "request_bytes_out";
  help = codes "Bytes sent to servers during requests";
  labels = base_labels;
}

abbrev pub fail_desc : Desc
fail_desc = record {
  name = codes "request_fail_count";
  help = codes "Count of failed requests";
  labels = base_labels ++ codes "message" ∷ [];
}

module _ (fl : Float64) (client : Client (fl.F)) where
  open fl use {F, of_uint}

  pub record PromMetrics : Type 0 where
    pub latency : client.HistogramVec
    pub bytes_in : client.CounterVec
    pub bytes_out : client.CounterVec
    pub fails : client.CounterVec

  -- `NewMetrics`.
  unfoldable pub new_metrics : PromMetrics
  new_metrics = record {
    latency = client.new_histogram latency_desc;
    bytes_in = client.new_counter bytes_in_desc;
    bytes_out = client.new_counter bytes_out_desc;
    fails = client.new_counter fail_desc;
  }

  -- `Observe`.
  unfoldable pub observe : PromMetrics → Result → Outcome PromMetrics
  observe pm res =
      let code = format_uint res.code in
      let values = res.method ∷ res.url ∷ code ∷ [] in
      let failed = values ++ res.error ∷ [] in
      elim (client.add_at values (of_uint res.bytes_in) pm.bytes_in) [
        | panics ↦ panics
        | returns ins ↦ elim (client.add_at values (of_uint res.bytes_out) pm.bytes_out) [
          | panics ↦ panics
          | returns outs ↦ elim (client.observe_at values (seconds fl res.latency) pm.latency) [
            | panics ↦ panics
            | returns lat ↦
                elim (if is_empty res.error
                  then returns pm.fails
                  else client.child_at failed pm.fails) [
                    | panics ↦ panics
                    | returns fails ↦
                        returns (record {
                          latency = lat;
                          bytes_in = ins;
                          bytes_out = outs;
                          fails = fails;
                        })
                  ]
          ]
        ]
      ]

  -- The observations of `processAttack`.
  unfoldable pub observe_all : List Result → PromMetrics → Outcome PromMetrics
  unfolding observe
  observe_all [] pm = returns pm
  observe_all (r ∷ rs) pm = elim (observe pm r) [
    | panics ↦ panics
    | returns pm1 ↦ observe_all rs pm1
  ]

  -- What `Register` registers, in its order.
  pub data Collector : Type 0 where
    histogram_vec : client.HistogramVec → Collector
    counter_vec : client.CounterVec → Collector

  module _ {R : Type 0} (register_one : Collector → R → R × Option Text) where
    -- The loop of `Register`, which ends at the first error.
    unfoldable pub register_each : List Collector → R → R × Option Text
    register_each [] r = (r, none)
    register_each (c ∷ cs) r =
        let registered = register_one c r in
        elim (registered.1) [
          | none ↦ register_each cs registered.0
          | some e ↦ (registered.0, some e)
        ]

    -- `Register`.
    unfoldable pub register : PromMetrics → R → R × Option Text
    unfolding register_each
    register pm r =
        register_each
          (histogram_vec pm.latency
            ∷ counter_vec pm.bytes_in
            ∷ counter_vec pm.bytes_out
            ∷ counter_vec pm.fails
            ∷ [])
          r
