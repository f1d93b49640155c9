-- ===== src/Plot/Page.antt =====
-- lib/plot/plot.go: the data of the page that is drawn, and lib/plot/timeseries.go, the points that a
-- series gives.
use vegeta.Prelude.{
  ℕ, suc, ◌+◌, ◌*◌, ◌%◌, ◌^◌, Bool, ◌||◌, List, [], ◌∷◌, ◌++◌, map, if◌then◌else◌, length, get_or,
  set, replicate, take, drop,
}
use vegeta.Prelude.Int.{ℤ, pos, negsuc, signed64}
use vegeta.Prelude.Text.{Text, codes, text_key, has_prefix}
use vegeta.Prelude.Sort.{text_lt, sort}
use vegeta.Outcome.{Fallible, ok, err, ◌>>=◌}
use vegeta.Float.{Float64, seconds}
use vegeta.Lttb
use vegeta.Plot

-- `failures` and `successes`.
abbrev pub failures : List Text
failures =
    codes "#EE7860"
    ∷ codes "#DD624E"
    ∷ codes "#CA4E3E"
    ∷ codes "#B63A30"
    ∷ codes "#9F2823"
    ∷ codes "#881618"
    ∷ codes "#6F050E"
    ∷ []

abbrev pub successes : List Text
successes =
    codes "#E9D758"
    ∷ codes "#297373"
    ∷ codes "#39393A"
    ∷ codes "#A1CDF4"
    ∷ codes "#593C8F"
    ∷ codes "#171738"
    ∷ codes "#A1674A"
    ∷ []

-- `strings.Contains`.
unfoldable pub contains : Text → Text → Bool
contains sub [] = has_prefix sub []
contains sub (c ∷ s) = has_prefix sub (c ∷ s) || contains sub s

-- The loop of `labelColors`, with the counters of its variables.
unfoldable pub colors_from : ℕ → ℕ → List Text → List Text
unfolding contains
colors_from failure success [] = []
colors_from failure success (label ∷ labels) =
    if contains (codes "ERROR") label
    then get_or failures (failure % 7) [] ∷ colors_from (failure + 1) success labels
    else get_or successes (success % 7) [] ∷ colors_from failure (success + 1) labels

-- `labelColors`.
unfoldable pub label_colors : List Text → List Text
unfolding colors_from
label_colors labels = colors_from 0 0 labels

module _ (fl : Float64) (nan : fl.F) (tsz : Plot.Compressor (fl.F)) where
  -- A pair of a series as a point.
  abbrev pub to_point : ℕ × fl.F → Lttb.Point fl
  to_point (t, v) = record { x = seconds fl (signed64 ((t * 1_000_000) % 2 ^ 64)); y = v }

  -- `timeSeries.iter` over what is left of the series; `make` panics at a negative count.
  unfoldable pub iter : ℤ → List (ℕ × fl.F) → Fallible Text (List (Lttb.Point fl) × List (ℕ × fl.F))
  iter (pos n) rest = ok (map to_point (take n rest), drop n rest)
  iter (negsuc n) rest = err (codes "makeslice: cap out of range")

  -- `series[i].attack + series[i].label`.
  abbrev pub sort_key : Plot.TimeSeries fl tsz → Text
  sort_key s = s.attack ++ s.label

  -- The series of a plot, in the order of the keys. The order in which the maps are gone through is
  -- that of the model's lists.
  unfoldable pub all_series :
      List (Text × Plot.LabeledSeries fl tsz) → List (Plot.TimeSeries fl tsz)
  all_series [] = []
  all_series ((attack, ls) ∷ m) = map (λ s. s.1) ls.series ++ all_series m

  unfoldable pub sorted_series :
      List (Text × Plot.LabeledSeries fl tsz) → List (Plot.TimeSeries fl tsz)
  unfolding text_lt sort all_series
  sorted_series m = sort (λ s u. text_lt (sort_key s) (sort_key u)) (all_series m)

  -- A row of the data: the seconds, and the value in the column of its series.
  abbrev pub row : ℕ → ℕ → Lttb.Point fl → List fl.F
  row size i p = set (set (replicate size nan) 0 p.x) (suc i) p.y

  -- The loop over the series, from the column `i` on.
  unfoldable pub rows :
      ℤ → ℕ → ℕ → List (Plot.TimeSeries fl tsz) → Fallible (Lttb.LttbError Text) (List (List fl.F))
  unfolding iter
  rows threshold size i [] = ok []
  rows threshold size i (s ∷ series) =
      Lttb.downsample fl iter (pos s.len) threshold (tsz.values s.points) >>= λ points.
      rows threshold size (suc i) series >>= λ more. ok (map (row size i) points ++ more)

  -- `dataPoints.Less`.
  abbrev pub less : List fl.F → List fl.F → Bool
  less p q = fl.lt (get_or p 0 nan) (get_or q 0 nan)

  abbrev pub series_label : Plot.TimeSeries fl tsz → Text
  series_label s = s.attack ++ codes ": " ++ s.label

  -- `Plot.data`: the rows in order of time, and the labels.
  unfoldable pub plot_data :
      ℤ
      → List (Text × Plot.LabeledSeries fl tsz)
      → Fallible (Lttb.LttbError Text) (List (List fl.F) × List Text)
  unfolding sorted_series rows sort
  plot_data threshold m =
      let series = sorted_series m in
      rows threshold (suc (length series)) 0 series >>= λ found.
      ok (sort less found, codes "Seconds" ∷ map series_label series)
