-- ===== src/Reporters.antt =====
-- lib/reporters.go: what the reporters write, up to the layout of the text; lib/histogram.go, `Nth`.
pub mod Rounding
pub mod Ranges
pub mod Writing
mod Tests
use vegeta.Prelude.{
  ℕ, zero, suc, ◌+◌, ◌-◌, ◌*◌, ◌/◌, ◌%◌, ◌^◌, Bool, true, false, Option, none, some, List, [], ◌∷◌,
  if◌then◌else◌, ltb, leb, length, get_elem?, map,
}
use vegeta.Prelude.Int.{
  ℤ, pos, negsuc, pos_part, neg_part, ◌+ℤ◌, ◌-ℤ◌, ◌*ℤ◌, ◌/ℤ◌, leb_ℤ, ltb_ℤ, int64,
}
use vegeta.Prelude.Text.{Text, codes}
use vegeta.Prelude.Map.{lookup}
use vegeta.Float.{Float64}
use vegeta.Histogram.{Histogram}
use vegeta.Metrics.{Estimator, Metrics, quantile}

-- `durations`.
abbrev pub durations : List ℕ
durations = 3_600_000_000_000 ∷ 60_000_000_000 ∷ 1_000_000_000 ∷ 1_000_000 ∷ 1_000 ∷ 1 ∷ []

-- `d.Round(m)` of the package time, for m > 0: to the nearest multiple, half away from zero; what does
-- not fit becomes the largest or the smallest duration.
unfoldable pub round_to : ℕ → ℤ → ℤ
round_to m (pos n) =
    let r = n % m in
    if ltb (r + r) m
    then pos (n - r)
    else if ltb (n + (m - r)) (2 ^ 63)
    then pos (n + (m - r))
    else pos (2 ^ 63 - 1)
round_to m (negsuc k) =
    let n = suc k in
    let r = n % m in
    if ltb (r + r) m
    then (pos 0 -ℤ pos (n - r))
    else if ltb (n + (m - r)) (2 ^ 63)
    then (pos 0 -ℤ pos (n + (m - r)))
    else (pos 0 -ℤ pos (2 ^ 63))

-- The loop of `round`: a unit with one behind it.
unfoldable pub round_by : List ℕ → ℤ → ℤ
unfolding round_to
round_by [] d = d
round_by (unit ∷ []) d = d
round_by (unit ∷ next ∷ units) d =
    let rest = round_by (next ∷ units) d in if leb_ℤ (pos unit) d then round_to next d else rest

-- `round`.
unfoldable pub round : ℤ → ℤ
unfolding round_by
round d = round_by durations d

-- `Buckets.Nth`: the two ends of a bucket, and `none` for the end `+Inf`. Out of range it panics, which is
-- `none` here.
unfoldable pub nth : List ℤ → ℕ → Option (ℤ × Option ℤ)
nth [] i = none
nth (b ∷ []) zero = some (b, none)
nth (b ∷ []) (suc i) = none
nth (b ∷ next ∷ bs) zero = some (b, some next)
nth (b ∷ next ∷ bs) (suc i) = nth (next ∷ bs) i

module _ (fl : Float64) where
  open fl use {F, add, sub, mul, div, lt, of_int, of_uint, to_int64}

  -- A row of `NewHistogramReporter`: the ends of the bucket, its count, the percentage and the length
  -- of the bar. A row whose bucket is out of range, without ends, is never printed.
  pub record BucketRow : Type 0 where
    pub ends : Option (ℤ × Option ℤ)
    pub count : ℕ
    pub percent : F
    pub bar : ℤ

  unfoldable pub bucket_row : Histogram → ℕ → ℕ → BucketRow
  unfolding nth
  bucket_row h i count =
      let ratio = div (of_uint count) (of_uint h.total) in
      record {
        ends = nth h.buckets i;
        count = count;
        percent = mul ratio (of_uint 100);
        bar = to_int64 (mul ratio (of_uint 75));
      }

  -- The loop over the counts.
  unfoldable pub bucket_rows : Histogram → ℕ → List ℕ → List BucketRow
  unfolding bucket_row
  bucket_rows h i [] = []
  bucket_rows h i (c ∷ counts) = bucket_row h i c ∷ bucket_rows h (suc i) counts

  -- `milliseconds`.
  unfoldable pub milliseconds : ℤ → F
  milliseconds d =
      let msec = d /ℤ pos 1_000_000 in
      add (of_int msec) (div (of_int (d -ℤ msec *ℤ pos 1_000_000)) (of_uint 1_000_000))

  -- `oneByQuantile`.
  unfoldable pub one_by_quantile : F → F
  one_by_quantile q =
      if lt q (of_uint 1) then div (of_uint 1) (sub (of_uint 1) q) else of_uint 10_000_000

  -- A row of `NewHDRHistogramPlotReporter`.
  pub record QuantileRow : Type 0 where
    pub value : F
    pub quantile : F
    pub count : ℤ
    pub one_by : F

  module _ (est : Estimator fl) where
    unfoldable pub hdr_row : Metrics fl est → F → QuantileRow
    unfolding milliseconds one_by_quantile
    hdr_row m q = record {
      value = milliseconds (quantile fl est m.latencies q);
      quantile = q;
      count = to_int64 (add (mul q (of_uint m.requests)) (div (of_uint 1) (of_uint 2)));
      one_by = one_by_quantile q;
    }
