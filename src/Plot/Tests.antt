-- ===== src/Plot/Tests.antt =====
-- Three results of an attack, of which the second fails, that are added to a plot in the order of 2, 0 and 1.
use vegeta.Prelude.{
  ℕ, ◌*◌, ◌<◌, ◌≡◌, refl, true, false, none, some, List, [], ◌∷◌, length, map, All, arith, ltb,
  if◌then◌else◌, ◌==◌,
}
use vegeta.Prelude.Int.{pos}
use vegeta.Prelude.Text.{Text, text_key, codes}
use vegeta.Prelude.Map.{nat_eq, lookup}
use vegeta.Outcome.{ok}
use vegeta.Float.Sample.{fixed}
use vegeta.Results.{Result}
use vegeta.Plot
use vegeta.Plot.Sample.{tsz}
use vegeta.Plot.View.{IsAttack, shown}
use vegeta.Plot.Orders.{IsUpTo, add_all-ForgetsOrder}
use vegeta.Prelude.Sort.{sort, insert, text_lt, Ordered}
use vegeta.Plot.Page.{less, all_series, sorted_series, plot_data}
use vegeta.Plot.Table.{IsWhole, total, plot_data-IsTable}

-- A result every millisecond, for a tenth of a second.
abbrev hits : ℕ → Result
hits k = record {
  attack = codes "a";
  seq = k;
  code = if k == 1 then 500 else 200;
  timestamp = pos (if ltb k 100 then k * 1_000_000 else 100_000_000);
  latency = pos 2_000_000;
  bytes_out = 0;
  bytes_in = 0;
  error = if k == 1 then codes "500" else [];
  body = [];
  method = [];
  url = [];
  headers = none;
}

is_attack : IsAttack fixed tsz Plot.error_labeler hits
is_attack = record {
  numbered = λ k. refl;
  named = λ k. refl;
  ordered = λ k. ground arith;
  near = λ k. ground arith;
}

order-IsUpTo : IsUpTo 3 (2 ∷ 0 ∷ 1 ∷ [])
order-IsUpTo = record {
  once = (refl, (refl, (refl, tt)));
  below = λ k h. ground (arith, h);
  all = λ k h. ground (arith, h);
}

add_all-ForgetsOrder_example :
    (ls1 : Plot.LabeledSeries fixed tsz) × (Plot.add_all fixed tsz Plot.error_labeler
        (map hits (2 ∷ 0 ∷ 1 ∷ []))
        (Plot.new_labeled_series fixed tsz)
      ≡ (ls1, none))
    × (ls1.seq ≡ 3)
    × ((k : ℕ) → lookup k ls1.buf ≡ none)
    × ((j : ℕ)
        → j < 3
        → lookup (Plot.error_labeler (hits j)) ls1.series
          ≡ some (shown fixed tsz Plot.error_labeler hits (Plot.error_labeler (hits j)) 3))
add_all-ForgetsOrder_example =
    add_all-ForgetsOrder fixed tsz Plot.error_labeler hits is_attack 3 (2 ∷ 0 ∷ 1 ∷ []) order-IsUpTo
      (omega arith)

abbrev nan : fixed.F
unfolding fixed
nan = pos 0

abbrev series : Text → List (ℕ × fixed.F) → Plot.TimeSeries fixed tsz
series label ps = record {
  attack = codes "a";
  label = label;
  prev = 2;
  points = ps;
  len = length ps;
}

value : ℕ → fixed.F
unfolding fixed
value n = pos n

-- Two series of a plot.
abbrev drawn : List (Text × Plot.LabeledSeries fixed tsz)
drawn =
    (
      codes "a",
      record {
        began = pos 0;
        seq = 3;
        buf = [];
        series =
            (codes "OK", series (codes "OK") ((0, value 5) ∷ (2, value 6) ∷ []))
            ∷ (codes "ERROR", series (codes "ERROR") ((1, value 9) ∷ []))
            ∷ [];
      },
    )
    ∷ []

in_order :
    sorted_series fixed nan tsz drawn
    ≡ series (codes "ERROR") ((1, value 9) ∷ [])
      ∷ series (codes "OK") ((0, value 5) ∷ (2, value 6) ∷ [])
      ∷ []
unfolding sorted_series all_series sort insert text_lt fixed
in_order = refl

asym : (a b : fixed.F) → fixed.lt a b ≡ true → fixed.lt b a ≡ false
unfolding fixed
asym a b h = ground arith

whole : All (IsWhole fixed nan tsz 2) (sorted_series fixed nan tsz drawn)
whole =
    rw in_order
      (record { few = omega arith; kept = refl }, (record { few = omega arith; kept = refl }, tt))

plot_data-IsTable_example :
    (found : List (List fixed.F)) × (labels : List Text) × (plot_data fixed nan tsz (pos 2) drawn
      ≡ ok (found, labels))
    × All (λ r. length r ≡ length labels) found
    × (length found ≡ total fixed nan tsz (sorted_series fixed nan tsz drawn))
    × Ordered (less fixed nan tsz) found
plot_data-IsTable_example = plot_data-IsTable fixed nan tsz 2 drawn asym whole
