-- ===== src/Reporters/Writing/Quiet.antt =====
-- lib/reporters.go: what the reporter of a histogram does when a row cannot be printed.
use vegeta.Prelude.{suc, ℕ, ◌≡◌, ap, ◌∙◌, ◌⊎◌, Option, none, some, List, [], ◌∷◌, ◌++◌, map}
use vegeta.Prelude.Text.{Text}
use vegeta.Float.{Float64}
use vegeta.Histogram.{Histogram}
use vegeta.Outcome.{Outcome, returns, panics}
use vegeta.Prelude.Int.{ℤ}
use vegeta.Reporters.{nth, bucket_row, bucket_rows}
use vegeta.Reporters.Writing
use vegeta.Reporters.Writing.Complete.{IsKept}

-- The lines of the report.
abbrev pub row_lines : (fl : Float64) → Histogram → ℕ → List ℕ → List (Writing.BucketLine fl)
row_lines fl h i counts = map Writing.bucket_line (bucket_rows fl h i counts)

module _ (fl : Float64) {S : Type 0} (flush : S → S × Option Text)
    (print : Writing.BucketLine fl → S → S × Option Text)
    (log : S → List (Writing.BucketLine fl)) where
  -- How the rows end: they are all printed and the error is that of the flush, or there is a row that is not
  -- printed and no error.
  abbrev pub QuietEnd : List (Writing.BucketLine fl) → S × Option Text → Type 0
  QuietEnd rest out =
      ((rest ≡ []) × (s : S) × (out ≡ flush s))
      ⊎ ((l : Writing.BucketLine fl) × (ls : List (Writing.BucketLine fl)) × (rest ≡ l ∷ ls)
          × (out.1 ≡ none))

  -- What is printed of the lines, and how it ends, by a predicate on what is not printed.
  pub record PrintedBy (s : S) (lines : List (Writing.BucketLine fl)) (out : S × Option Text)
      (End : List (Writing.BucketLine fl) → List (Writing.BucketLine fl) → Type 0) : Type 0 where
    pub done : List (Writing.BucketLine fl)
    pub rest : List (Writing.BucketLine fl)
    pub whole : done ++ rest ≡ lines
    pub logged : log out.0 ≡ log s ++ done
    pub ended : End done rest

  -- The reporter panics for want of a bucket for each count, or returns, with the lines printed.
  abbrev pub PrintedOrPanics :
      S
      → List (Writing.BucketLine fl)
      → Type 0
      → Outcome (S × Option Text)
      → (S × Option Text → List (Writing.BucketLine fl) → List (Writing.BucketLine fl) → Type 0)
      → Type 0
  PrintedOrPanics s lines Fewer got End =
      ((out : S × Option Text) × (got ≡ returns out) × PrintedBy s lines out (End out))
      ⊎ ((got ≡ panics) × Fewer)

  module _ (kept : IsKept print flush log) (h : Histogram) where
    -- The step of the loop, by what printing the row gives.
    step :
        (i count : ℕ) (counts : List ℕ) (s : S) {ends : ℤ × Option ℤ} {failed : Option Text}
        → nth h.buckets i ≡ some ends
        → (print (Writing.bucket_line (bucket_row fl h i count)) s).1 ≡ failed
        → Writing.print_buckets fl flush print h i (count ∷ counts) s ≡ (
            let s1 = (print (Writing.bucket_line (bucket_row fl h i count)) s).0 in
            elim failed [
              | none ↦ Writing.print_buckets fl flush print h (suc i) counts s1
              | some e ↦ returns (s1, none)
            ])
    unfolding Writing.print_buckets
    step i count counts s {ends} {failed} bucket f =
        let printed = print (Writing.bucket_line (bucket_row fl h i count)) s in
        let rest = Writing.print_buckets fl flush print h (suc i) counts printed.0 in
        ap
          (λ o. elim o [
            | none ↦ panics
            | some x ↦ elim (printed.1) [ none ↦ rest | some e ↦ returns (printed.0, none) ]
          ])
          bucket
        ∙ ap (λ o. elim o [ none ↦ rest | some e ↦ returns (printed.0, none) ]) f
