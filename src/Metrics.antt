-- ===== src/Metrics.antt =====
-- lib/metrics.go: the metrics of an attack, over the floats `fl` and the estimator of quantiles `est`.
pub mod Counts
pub mod Errors
pub mod Bounds
mod Tests
use vegeta.Prelude.{
  ℕ, zero, suc, ◌+◌, ◌-◌, ◌*◌, ◌%◌, ◌^◌, Bool, true, false, not, ◌&&◌, ◌||◌, Option, none, some,
  List, [], ◌∷◌, ◌++◌, ltb, leb, ◌==◌, if◌then◌else◌,
}
use vegeta.Prelude.Int.{ℤ, pos, negsuc, ◌+ℤ◌, ◌-ℤ◌, ltb_ℤ, ◌==ℤ◌, int64}
use vegeta.Prelude.Text.{Text, text_key, is_empty}
use vegeta.Prelude.Map.{lookup, assign}
use vegeta.Decimal.{format_uint}
use vegeta.Float.{Float64, seconds}
use vegeta.Outcome.{Outcome, returns, panics}
use vegeta.Results.{Result, end_of}
use vegeta.Histogram
use vegeta.Histogram.{Histogram}

-- The interface `estimator`, which the t-digest of a third-party package implements: `get` answers a query,
-- and `asked` is what it leaves, as a digest takes in what was added when it is asked.
pub record Estimator (fl : Float64) : Type 1 where
  pub State : Type 0
  pub new : State
  pub add : State → fl.F → State
  pub get : State → fl.F → fl.F
  pub asked : State → fl.F → State

-- The zero value of `time.Time`, the start of the year 1: 62135596800 seconds before the epoch.
abbrev pub zero_time : ℤ
zero_time = negsuc (62_135_596_800 * 1_000_000_000 - 1)

-- `t.Sub(u)` saturates.
unfoldable pub time_sub : ℤ → ℤ → ℤ
time_sub t u =
    let d = t -ℤ u in
    if ltb_ℤ (pos (2 ^ 63 - 1)) d
    then pos (2 ^ 63 - 1)
    else if ltb_ℤ d (negsuc (2 ^ 63 - 1))
    then negsuc (2 ^ 63 - 1)
    else d

pub record ByteMetrics (fl : Float64) : Type 0 where
  pub total : ℕ  -- uint64
  pub mean : fl.F

abbrev pub u64 : ℕ → ℕ
u64 n = n % 2 ^ 64

-- A nil map or slice is made.
abbrev pub made {ℓ} : {A : Type ℓ} → Option (List A) → List A
made none = []
made (some xs) = xs

unfoldable pub count_at : Text → List (Text × ℕ) → ℕ
count_at k codes = elim (lookup k codes) [ none ↦ 0 | some n ↦ n ]

-- `m.StatusCodes[strconv.Itoa(int(r.Code))]++`.
unfoldable pub count_code : ℕ → List (Text × ℕ) → List (Text × ℕ)
unfolding count_at
count_code code codes = assign (format_uint code) (count_at (format_uint code) codes + 1) codes

abbrev pub is_success : Result → Bool
is_success r = leb 200 r.code && ltb r.code 400

module _ (fl : Float64) (est : Estimator fl) where
  open fl use {F, div, of_int, of_uint, to_int64, lt}

  pub record LatencyMetrics : Type 0 where
    pub total : ℤ
    pub mean : ℤ
    pub p50 : ℤ
    pub p90 : ℤ
    pub p95 : ℤ
    pub p99 : ℤ
    pub max : ℤ
    pub min : ℤ
    pub estimator : Option est.State

  -- `init`: the estimator, or a new one.
  unfoldable pub estimator_of : Option est.State → est.State
  estimator_of none = est.new
  estimator_of (some e) = e

  -- `LatencyMetrics.Add`.
  unfoldable pub add_latency : LatencyMetrics → ℤ → LatencyMetrics
  unfolding estimator_of
  add_latency l latency = record l {
    total = int64 (l.total +ℤ latency);
    max = if ltb_ℤ l.max latency then latency else l.max;
    min = if ltb_ℤ latency l.min || l.min ==ℤ pos 0 then latency else l.min;
    estimator = some (est.add (estimator_of l.estimator) (of_int latency));
  }

  -- `Quantile`, of a copy of the receiver.
  unfoldable pub quantile : LatencyMetrics → F → ℤ
  unfolding estimator_of
  quantile l nth = to_int64 (est.get (estimator_of l.estimator) nth)

  -- What `Quantile` leaves behind the pointer that the copy shares with the receiver; a copy without an estimator gets
  -- one of its own.
  unfoldable pub ask : LatencyMetrics → F → LatencyMetrics
  ask l nth = elim (l.estimator) [
    | none ↦ l
    | some e ↦ record l { estimator = some (est.asked e nth) }
  ]

  pub record Metrics : Type 0 where
    pub latencies : LatencyMetrics
    pub histogram : Option Histogram
    pub bytes_in : ByteMetrics fl
    pub bytes_out : ByteMetrics fl
    pub earliest : ℤ
    pub latest : ℤ
    pub end : ℤ
    pub duration : ℤ
    pub wait : ℤ
    pub requests : ℕ  -- uint64
    pub rate : F
    pub throughput : F
    pub success : F
    pub status_codes : Option (List (Text × ℕ))  -- nil is `none`; the counts are ints
    pub errors : Option (List Text)  -- the field `Errors`
    pub error_set : Option (List (Text × Unit {0}))  -- the field `errors`
    pub successes : ℕ  -- the field `success`, uint64

  -- The zero value, `var m Metrics`.
  unfoldable pub blank : Metrics
  blank = record {
    latencies = record {
      total = pos 0;
      mean = pos 0;
      p50 = pos 0;
      p90 = pos 0;
      p95 = pos 0;
      p99 = pos 0;
      max = pos 0;
      min = pos 0;
      estimator = none;
    };
    histogram = none;
    bytes_in = record { total = 0; mean = of_uint 0 };
    bytes_out = record { total = 0; mean = of_uint 0 };
    earliest = zero_time;
    latest = zero_time;
    end = zero_time;
    duration = pos 0;
    wait = pos 0;
    requests = 0;
    rate = of_uint 0;
    throughput = of_uint 0;
    success = of_uint 0;
    status_codes = none;
    errors = none;
    error_set = none;
    successes = 0;
  }

  -- `init`.
  unfoldable pub init : Metrics → Metrics
  init m = record m {
    status_codes = some (made m.status_codes);
    errors = some (made m.errors);
    error_set = some (made m.error_set);
  }

  -- The block that notes an error that was not seen before.
  unfoldable pub note_error : Result → Metrics → Metrics
  note_error r m = if is_empty r.error then m else elim (lookup r.error (made m.error_set)) [
    | some seen ↦ m
    | none ↦ record m {
      error_set = some (assign r.error tt (made m.error_set));
      errors = some (made m.errors ++ r.error ∷ []);
    }
  ]

  -- What `Add` counts before it comes to the error.
  unfoldable pub tally_up : Metrics → Result → Metrics
  tally_up m r = record m {
    requests = u64 (m.requests + 1);
    status_codes = some (count_code r.code (made m.status_codes));
    bytes_out = record (m.bytes_out) { total = u64 (m.bytes_out.total + r.bytes_out) };
    bytes_in = record (m.bytes_in) { total = u64 (m.bytes_in.total + r.bytes_in) };
    latencies = add_latency m.latencies r.latency;
    earliest =
        if m.earliest ==ℤ zero_time || ltb_ℤ r.timestamp m.earliest
        then r.timestamp
        else m.earliest;
    latest = if ltb_ℤ m.latest r.timestamp then r.timestamp else m.latest;
    end = if ltb_ℤ m.end (end_of r) then end_of r else m.end;
    successes = if is_success r then u64 (m.successes + 1) else m.successes;
  }

  -- `Add` up to the histogram.
  unfoldable pub add_counts : Metrics → Result → Metrics
  add_counts m r = note_error r (tally_up (init m) r)

  -- `Add`, with the histogram if there is one.
  unfoldable pub add : Metrics → Result → Outcome Metrics
  add m r = elim (m.histogram) [
    | none ↦ returns (add_counts m r)
    | some h ↦ elim (Histogram.add h r) [
      | panics ↦ panics
      | returns h' ↦ returns (record (add_counts m r) { histogram = some h' })
    ]
  ]

  -- The block of `Close` for a duration that is more than nothing.
  unfoldable pub close_rates : Metrics → Metrics
  close_rates m =
      let secs = seconds fl m.duration in
      if lt (of_uint 0) secs
      then record m {
        rate = div (of_uint m.requests) secs;
        throughput = div (of_uint m.successes) (seconds fl (int64 (m.duration +ℤ m.wait)));
      }
      else m

  -- The means and the quantiles of `Close`.
  unfoldable pub close_means : Metrics → Metrics
  unfolding quantile ask
  close_means m =
      let n = of_uint m.requests in
      let q50 = div (of_uint 50) (of_uint 100) in
      let q90 = div (of_uint 90) (of_uint 100) in
      let q95 = div (of_uint 95) (of_uint 100) in
      let q99 = div (of_uint 99) (of_uint 100) in
      let l = m.latencies in
      let l1 = ask l q50 in
      let l2 = ask l1 q90 in
      let l3 = ask l2 q95 in
      record m {
        bytes_in = record (m.bytes_in) { mean = div (of_uint m.bytes_in.total) n };
        bytes_out = record (m.bytes_out) { mean = div (of_uint m.bytes_out.total) n };
        success = div (of_uint m.successes) n;
        latencies = record (ask l3 q99) {
          mean = to_int64 (div (of_int l.total) n);
          p50 = quantile l q50;
          p90 = quantile l1 q90;
          p95 = quantile l2 q95;
          p99 = quantile l3 q99;
        };
      }

  -- `Close`.
  unfoldable pub close : Metrics → Metrics
  unfolding init close_rates close_means
  close m0 =
      let m = init m0 in
      if m.requests == 0
      then m
      else close_means (
          close_rates (record m {
            rate = of_uint m.requests;
            throughput = of_uint m.successes;
            duration = time_sub m.latest m.earliest;
            wait = time_sub m.end m.latest;
          }))
