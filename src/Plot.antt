-- ===== src/Plot.antt =====
-- lib/plot/plot.go and lib/plot/timeseries.go: the series of a plot and how results are added to them.
-- The compressed series of github.com/tsenart/go-tsz is a parameter.
pub mod View
pub mod Emit
pub mod Reorder
pub mod Orders
pub mod Page
pub mod Table
pub mod Written
pub mod Sample
mod Tests
use vegeta.Prelude.{
  ℕ, suc, zero, ◌+◌, ◌-◌, ◌/◌, ◌%◌, ◌^◌, ◌≡◌, Bool, true, false, Option, none, some, List, [], ◌∷◌,
  if◌then◌else◌, ltb, leb, ◌==◌, length, not,
}
use vegeta.Prelude.Int.{ℤ, pos, negsuc, ◌-ℤ◌, ltb_ℤ, uint64}
use vegeta.Prelude.Text.{Text, text_key, codes, is_empty}
use vegeta.Prelude.Map.{nat_eq, lookup, assign, delete}
use vegeta.Float.{Float64, seconds}
use vegeta.Results.{Result}

-- `tsz.Series`: `New(0)`, `Push`, and the pairs that an iterator over it gives.
pub record Compressor (F : Type 0) : Type 1 where
  pub Data : Type 0
  pub new : Data
  pub push : ℕ → F → Data → Data
  pub values : Data → List (ℕ × F)

-- `t.Sub(u)`: the difference of two instants, which saturates.
unfoldable pub sub_time : ℤ → ℤ → ℤ
unfolding ◌-ℤ◌
sub_time t u =
    let d = t -ℤ u in
    if ltb_ℤ d (negsuc (2 ^ 63 - 1))
    then negsuc (2 ^ 63 - 1)
    else if ltb_ℤ (pos (2 ^ 63 - 1)) d
    then pos (2 ^ 63 - 1)
    else d

-- `ErrorLabeler`.
abbrev pub error_labeler : Result → Text
error_labeler r = if is_empty r.error then codes "OK" else codes "ERROR"

-- What goes wrong: a timestamp before the one before it, at a sequence number; or a point without a
-- series, which stands for a pointer that dangles.
pub data PlotError : Type 0 where
  non_monotonic : ℕ → PlotError
  dangling : PlotError

module _ (fl : Float64) (tsz : Compressor (fl.F)) where
  pub record TimeSeries : Type 0 where
    pub attack : Text
    pub label : Text
    pub prev : ℕ
    pub points : tsz.Data  -- `data`
    pub len : ℕ

  -- The `ts` of a point is a pointer into the series of its `labeledSeries`, which are never replaced: here the
  -- label that it stands under.
  pub record Point : Type 0 where
    pub ts : Text
    pub seq : ℕ
    pub t : ℤ
    pub v : fl.F

  pub record LabeledSeries : Type 0 where
    pub began : ℤ
    pub seq : ℕ
    pub buf : List (ℕ × Point)
    pub series : List (Text × TimeSeries)

  abbrev pub new_time_series : Text → Text → TimeSeries
  new_time_series attack label = record {
    attack = attack;
    label = label;
    prev = 0;
    points = tsz.new;
    len = 0;
  }

  abbrev pub new_labeled_series : LabeledSeries
  new_labeled_series = record { began = pos 0; seq = 0; buf = []; series = [] }

  -- `timeSeries.add`, with `none` for its error.
  unfoldable pub push_point : ℕ → fl.F → TimeSeries → Option TimeSeries
  push_point t v s =
      if ltb t s.prev
      then none
      else some (record s { points = tsz.push t v s.points; prev = t; len = s.len + 1 })

  -- The timestamp of a point in milliseconds.
  abbrev pub millis : ℤ → ℤ → ℕ
  millis began t = uint64 (sub_time t began) / 1_000_000

  -- One round of the loop past the `delete`, and whether it fails.
  unfoldable pub emit : Point → LabeledSeries → LabeledSeries × Option PlotError
  unfolding push_point
  emit p ls = elim (lookup p.ts ls.series) [
    | none ↦ (ls, some dangling)
    | some s ↦ elim (push_point (millis ls.began p.t) p.v s) [
      | none ↦ (ls, some (non_monotonic p.seq))
      | some s1 ↦
          (record ls { series = assign p.ts s1 ls.series; seq = (ls.seq + 1) % 2 ^ 64 }, none)
    ]
  ]

  -- The loop. The fuel is the number of buffered points, of which each round deletes one.
  unfoldable pub drain : ℕ → LabeledSeries → LabeledSeries × Option PlotError
  unfolding emit
  drain zero ls = (ls, none)
  drain (suc fuel) ls = elim (lookup ls.seq ls.buf) [
    | none ↦ (ls, none)
    | some p ↦
        let emitted = emit p (record ls { buf = delete ls.seq ls.buf }) in
        elim (emitted.1) [ none ↦ drain fuel emitted.0 | some e ↦ (emitted.0, some e) ]
  ]

  -- The point of a result, under a label.
  abbrev pub point_of : Text → Result → Point
  point_of label r = record {
    ts = label;
    seq = r.seq;
    t = r.timestamp;
    v = fl.mul (seconds fl r.latency) (fl.of_uint 1000);
  }

  -- The series of a label, made if it is not there.
  unfoldable pub with_series : Text → Text → List (Text × TimeSeries) → List (Text × TimeSeries)
  with_series attack label m = elim (lookup label m) [
    | none ↦ assign label (new_time_series attack label) m
    | some s ↦ m
  ]

  module _ (label : Result → Text) where
    -- `labeledSeries.add` up to the assignment to the buffer.
    unfoldable pub buffer : Result → LabeledSeries → LabeledSeries
    unfolding with_series
    buffer r ls = record ls {
      series = with_series r.attack (label r) ls.series;
      buf = assign r.seq (point_of (label r) r) ls.buf;
    }

    -- `labeledSeries.add`.
    unfoldable pub add : Result → LabeledSeries → LabeledSeries × Option PlotError
    unfolding buffer drain
    add r ls =
        let buffered = buffer r ls in
        if not (r.seq == ls.seq)
        then (buffered, none)
        else drain (length buffered.buf)
            (record buffered { began = if ls.seq == 0 then r.timestamp else ls.began })

    -- `p.series[attack]`, or a new value.
    abbrev pub series_at : Text → List (Text × LabeledSeries) → LabeledSeries
    series_at attack m = elim (lookup attack m) [ none ↦ new_labeled_series | some s ↦ s ]

    -- `Plot.Add`, on the plot's map from attacks to their series.
    unfoldable pub plot_add :
        Result → List (Text × LabeledSeries) → List (Text × LabeledSeries) × Option PlotError
    unfolding add
    plot_add r m =
        let added = add r (series_at r.attack m) in (assign r.attack (added.0) m, added.1)

    -- The loop of `plotRun` in plot.go over the results of one attack: it ends at the first error.
    unfoldable pub add_all : List Result → LabeledSeries → LabeledSeries × Option PlotError
    unfolding add
    add_all [] ls = (ls, none)
    add_all (r ∷ rs) ls =
        let added = add r ls in
        elim (added.1) [ none ↦ add_all rs added.0 | some e ↦ (added.0, some e) ]
