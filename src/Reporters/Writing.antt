-- ===== src/Reporters/Writing.antt =====
-- lib/reporters.go: the reporters as what they print, line by line, and where they stop. The writer is a
-- parameter: a state, what printing a line does to it, with the error if there is one, and the flush of
-- the tab writer. A line stands for its values; how they are laid out is not modelled.
pub mod Complete
pub mod StatusCodes
pub mod Quiet
mod Tests
use vegeta.Prelude.{ℕ, suc, ◌*◌, Option, none, some, List, [], ◌∷◌, ◌++◌, map}
use vegeta.Prelude.Int.{ℤ, ◌+ℤ◌, int64}
use vegeta.Prelude.Text.{Text, text_key}
use vegeta.Prelude.Sort.{sort, text_lt}
use vegeta.Outcome.{Outcome, returns, panics, Fallible, ok, err}
use vegeta.Float.{Float64}
use vegeta.Histogram.{Histogram}
use vegeta.Metrics.{Estimator, Metrics, ask, count_at, made}
use vegeta.Reporters.{nth, round, BucketRow, bucket_row, QuantileRow, hdr_row}

-- `logarithmic`, in millionths.
abbrev pub logarithmic : List ℕ
logarithmic =
    0 ∷ 100_000 ∷ 200_000 ∷ 300_000 ∷ 400_000 ∷ 500_000 ∷ 550_000 ∷ 600_000 ∷ 650_000 ∷ 700_000
    ∷ 750_000 ∷ 775_000 ∷ 800_000 ∷ 825_000 ∷ 850_000 ∷ 875_000 ∷ 887_500 ∷ 900_000 ∷ 912_500
    ∷ 925_000 ∷ 937_500 ∷ 943_750 ∷ 950_000 ∷ 956_250 ∷ 962_500 ∷ 968_750 ∷ 971_875 ∷ 975_000
    ∷ 978_125 ∷ 981_250 ∷ 984_375 ∷ 985_938 ∷ 987_500 ∷ 989_062 ∷ 990_625 ∷ 992_188 ∷ 992_969
    ∷ 993_750 ∷ 994_531 ∷ 995_313 ∷ 996_094 ∷ 996_484 ∷ 996_875 ∷ 997_266 ∷ 997_656 ∷ 998_047
    ∷ 998_242 ∷ 998_437 ∷ 998_633 ∷ 998_828 ∷ 999_023 ∷ 999_121 ∷ 999_219 ∷ 999_316 ∷ 999_414
    ∷ 999_512 ∷ 999_561 ∷ 999_609 ∷ 999_658 ∷ 999_707 ∷ 999_756 ∷ 999_780 ∷ 999_805 ∷ 999_829
    ∷ 999_854 ∷ 999_878 ∷ 999_890 ∷ 999_902 ∷ 999_915 ∷ 999_927 ∷ 999_939 ∷ 999_945 ∷ 999_951
    ∷ 999_957 ∷ 999_963 ∷ 999_969 ∷ 999_973 ∷ 999_976 ∷ 999_979 ∷ 999_982 ∷ 999_985 ∷ 999_986
    ∷ 999_988 ∷ 999_989 ∷ 999_991 ∷ 999_992 ∷ 999_993 ∷ 999_994 ∷ 999_995 ∷ 999_996 ∷ 999_997
    ∷ 999_998 ∷ 999_999 ∷ 1_000_000 ∷ []

-- The next step, unless the one before it failed.
abbrev pub print_then : {S : Type 0} → S × Option Text → (S → S × Option Text) → S × Option Text
print_then (s, none) next = next s
print_then (s, some e) next = (s, some e)

-- A loop that prints and returns at the first error.
unfoldable pub print_each :
    {S L : Type 0} → (L → S → S × Option Text) → List L → S → S × Option Text
print_each print [] s = (s, none)
print_each print (l ∷ ls) s = print_then (print l s) (print_each print ls)

module _ (fl : Float64) where
  open fl use {F, mul, div, of_uint}

  -- What `NewHistogramReporter` prints: the heading and the rows.
  pub data BucketLine : Type 0 where
    bucket_heading : BucketLine
    bucket_line : BucketRow fl → BucketLine

  -- What `NewHDRHistogramPlotReporter` prints.
  pub data QuantileLine : Type 0 where
    quantile_heading : QuantileLine
    quantile_line : QuantileRow fl → QuantileLine

  -- The arguments of `fmtstr`.
  pub record Summary : Type 0 where
    pub requests : ℕ
    pub rate : F
    pub throughput : F
    pub durations : List ℤ  -- total, attack, wait
    pub latencies : List ℤ  -- min, mean, 50, 90, 95, 99, max
    pub bytes_in : ℕ × F
    pub bytes_out : ℕ × F
    pub success : F

  -- What `NewTextReporter` prints.
  pub data TextLine : Type 0 where
    summary : Summary → TextLine
    status : Text → ℕ → TextLine
    error_heading : TextLine
    error_line : Text → TextLine

  module _ {S : Type 0} (flush : S → S × Option Text) where
    -- The loop over the counts, which gives up without an error when a row cannot be printed, and panics at a
    -- count without a bucket.
    unfoldable pub print_buckets :
        (BucketLine → S → S × Option Text) → Histogram → ℕ → List ℕ → S → Outcome (S × Option Text)
    print_buckets print h i [] s = returns (flush s)
    print_buckets print h i (count ∷ counts) s =
        let printed = print (bucket_line (bucket_row fl h i count)) s in
        let rest = print_buckets print h (suc i) counts printed.0 in
        elim (nth h.buckets i) [
          | none ↦ panics
          | some ends ↦ elim (printed.1) [ none ↦ rest | some e ↦ returns (printed.0, none) ]
        ]

    -- `NewHistogramReporter`.
    unfoldable pub histogram_reporter :
        (BucketLine → S → S × Option Text) → Histogram → S → Outcome (S × Option Text)
    unfolding print_buckets
    histogram_reporter print h s =
        let printed = print bucket_heading s in
        elim (printed.1) [
          | none ↦ print_buckets print h 0 h.counts printed.0
          | some e ↦ returns (printed.0, some e)
        ]

  module _ (est : Estimator fl) where
    -- What `NewTextReporter` prints first.
    unfoldable pub summary_of : Metrics fl est → Summary
    summary_of m = record {
      requests = m.requests;
      rate = m.rate;
      throughput = m.throughput;
      durations = round (int64 (m.duration +ℤ m.wait)) ∷ round m.duration ∷ round m.wait ∷ [];
      latencies =
          round m.latencies.min
          ∷ round m.latencies.mean
          ∷ round m.latencies.p50
          ∷ round m.latencies.p90
          ∷ round m.latencies.p95
          ∷ round m.latencies.p99
          ∷ round m.latencies.max
          ∷ [];
      bytes_in = (m.bytes_in.total, m.bytes_in.mean);
      bytes_out = (m.bytes_out.total, m.bytes_out.mean);
      success = mul m.success (of_uint 100);
    }

    -- The codes in order, each with its count.
    unfoldable pub status_rows : Metrics fl est → List (Text × ℕ)
    unfolding sort text_lt count_at
    status_rows m =
        let codes = sort text_lt (map (λ entry. entry.0) (made m.status_codes)) in
        map (λ code. (code, count_at code (made m.status_codes))) codes

    abbrev pub status_line : Text × ℕ → TextLine
    status_line (code, count) = status code count

    -- `NewTextReporter`.
    unfoldable pub text_reporter :
        {S : Type 0}
        → (S → S × Option Text)
        → (TextLine → S → S × Option Text)
        → Metrics fl est
        → S
        → S × Option Text
    unfolding print_each summary_of status_rows
    text_reporter flush print m s = print_then (print (summary (summary_of m)) s) λ s1.
        print_then (print_each print (map status_line (status_rows m)) s1) λ s2.
          print_then (print error_heading s2)
            λ s3. print_then (print_each print (map error_line (made m.errors)) s3) flush

    -- The rows of the quantiles, of which each is asked for in turn.
    unfoldable pub hdr_rows : Metrics fl est → List ℕ → List (QuantileRow fl)
    unfolding ask
    hdr_rows m [] = []
    hdr_rows m (millionths ∷ qs) =
        let q = div (of_uint millionths) (of_uint 1_000_000) in
        hdr_row fl est m q ∷ hdr_rows (record m { latencies = ask fl est m.latencies q }) qs

    -- `NewHDRHistogramPlotReporter`.
    unfoldable pub hdr_reporter :
        {S : Type 0}
        → (S → S × Option Text)
        → (QuantileLine → S → S × Option Text)
        → Metrics fl est
        → S
        → S × Option Text
    unfolding print_each hdr_rows
    hdr_reporter flush print m s =
        print_then (print quantile_heading s)
          λ s1. print_then (print_each print (map quantile_line (hdr_rows m logarithmic)) s1) flush

    -- `NewJSONReporter`, with the encoding of the metrics as a parameter.
    unfoldable pub json_reporter :
        {S : Type 0}
        → (Metrics fl est → Fallible Text Text)
        → (Text → S → S × Option Text)
        → Metrics fl est
        → S
        → S × Option Text
    json_reporter marshal print m s = elim (marshal m) [
      | err e ↦ (s, some e)
      | ok encoded ↦ print encoded s
    ]
