-- ===== src/Reporters/Writing/Tests.antt =====
-- Reports on a paper with room for some lines, of which no more can be printed.
use vegeta.Prelude.{
  ℕ, zero, suc, ◌≡◌, refl, Option, none, some, List, [], ◌∷◌, ◌++◌, All, Any, map, arith,
}
use vegeta.Prelude.Int.{pos}
use vegeta.Prelude.Text.{Text, codes}
use vegeta.Outcome.{returns}
use vegeta.Reporters.{bucket_row, nth}
use vegeta.Prelude.Sort.{Ascending}
use vegeta.Decimal.{format_uint}
use vegeta.Float.Sample.{fixed}
use vegeta.Results.Sample.{samples}
use vegeta.Histogram.{Histogram}
use vegeta.Metrics.{Estimator, Metrics}
use vegeta.Metrics.Counts.{collected}
use vegeta.Reporters.Writing.{
  bucket_heading, bucket_line, text_reporter, histogram_reporter, status_rows, print_buckets,
}
use vegeta.Reporters.Writing.Complete.{IsKept, Printed, text_lines, text_reporter-Printed}
use vegeta.Reporters.Writing.StatusCodes.{IsRowOf, status_rows-collected}

-- The lines that are printed, and the room that is left.
abbrev Paper : Type 0 → Type 0
Paper L = List L × ℕ

print_on : {L : Type 0} → L → Paper L → Paper L × Option Text
print_on l (ls, zero) = ((ls, zero), some (codes "full"))
print_on l (ls, suc n) = ((ls ++ l ∷ [], n), none)

abbrev flush : {L : Type 0} → Paper L → Paper L × Option Text
flush p = (p, none)

abbrev lines_on : {L : Type 0} → Paper L → List L
lines_on p = p.0

paper-IsKept : {L : Type 0} → IsKept print_on flush (lines_on {L = L})
unfolding print_on
paper-IsKept = record { accepted = accepted; refused = refused; flushed = λ s. refl }
  where
    accepted :
        {L : Type 0} (l : L) (s : Paper L)
        → (print_on l s).1 ≡ none
        → lines_on (print_on l s).0 ≡ lines_on s ++ l ∷ []
    accepted l (ls, zero) e = absurd cc
    accepted l (ls, suc n) e = refl

    refused :
        {L : Type 0} (l : L) (s : Paper L) (e : Text)
        → (print_on l s).1 ≡ some e
        → lines_on (print_on l s).0 ≡ lines_on s
    refused l (ls, zero) e f = refl
    refused l (ls, suc n) e f = absurd cc

abbrev newest : Estimator fixed
newest = record {
  State = fixed.F;
  new = fixed.of_uint 0;
  add = λ s x. x;
  get = λ s q. s;
  asked = λ s q. s;
}

abbrev three : Metrics fixed newest
three = collected fixed newest samples

text_reporter-Printed_example :
    Printed lines_on
      ([], 3)
      (text_lines fixed newest three)
      (text_reporter fixed newest flush print_on three ([], 3))
text_reporter-Printed_example =
    text_reporter-Printed fixed newest flush print_on lines_on paper-IsKept three ([], 3)

abbrev two : Histogram
two = record { buckets = pos 0 ∷ pos 20 ∷ []; counts = 1 ∷ 1 ∷ []; total = 2 }

-- There is room for the heading and one row of two, and no error.
swallowed :
    histogram_reporter fixed flush print_on two ([], 2)
    ≡ returns ((bucket_heading ∷ bucket_line (bucket_row fixed two 0 1) ∷ [], 0), none)
unfolding histogram_reporter print_buckets print_on bucket_row nth
swallowed = refl

status_rows-collected_example :
    let rows = status_rows fixed newest three in
    Ascending (map (λ row. row.0) rows)
    × All (IsRowOf fixed newest samples) rows
    × All (λ r. Any (λ row. row.0 ≡ format_uint r.code) rows) samples
status_rows-collected_example =
    status_rows-collected fixed newest samples (omega arith, (omega arith, (omega arith, tt)))
