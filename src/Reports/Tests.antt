-- ===== src/Reports/Tests.antt =====
-- Three results whose histogram is reported at two ticks and at the end.
use vegeta.Prelude.{none, List, [], ◌∷◌}
use vegeta.Prelude.Int.{pos}
use vegeta.Prelude.Text.{codes}
use vegeta.Histogram
use vegeta.Results.Sample.{sample}
use vegeta.Reports.{Event, ticked, decoded, ended}

abbrev events : List Event
events =
    decoded (sample 0 200 10 [])
    ∷ ticked none
    ∷ decoded (sample 1 500 20 (codes "timeout"))
    ∷ decoded (sample 2 200 30 [])
    ∷ ticked none
    ∷ ended
    ∷ []

abbrev two : Histogram.Histogram
two = record { buckets = pos 0 ∷ pos 15 ∷ []; counts = []; total = 0 }
