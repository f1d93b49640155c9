-- ===== src/Reports/Choice.antt =====
-- report.go: the two ways to give the buckets of a histogram.
use vegeta.Prelude.{◌≤◌, ◌≡◌, ◌++◌, length, [], ◌∷◌, arith}
use vegeta.Prelude.Int.{ℤ}
use vegeta.Prelude.Text.{Text, codes, text_eq, has_prefix}
use vegeta.Prelude.{Option}
use vegeta.Reports.{choose_histogram, choose}

module _ (parse_duration : Text → Option ℤ) where
  -- Buckets of two characters or more behind `hist` in the type, the old way, give what the same
  -- buckets in the flag give, whatever `hist...` type comes with the flag: a histogram with these
  -- buckets, or the error about them.
  pub choose-hist :
      (t rest : Text)
      → 2 ≤ length t
      → choose parse_duration (codes "hist" ++ t) []
        ≡ choose parse_duration (codes "hist" ++ rest) t
  unfolding choose choose_histogram text_eq has_prefix
  choose-hist [] rest h = absurd (omega (arith, h))
  choose-hist (c ∷ t) rest h = ground arith
