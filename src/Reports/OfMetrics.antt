-- ===== src/Reports/OfMetrics.antt =====
-- report.go, with the reports of lib/metrics.go and lib/histogram.go.
use vegeta.Prelude.Text.{Text}
use vegeta.Float.{Float64}
use vegeta.Histogram
use vegeta.Metrics
use vegeta.Metrics.{Estimator, Metrics}
use vegeta.Reports.{Report}

-- `Metrics` as a `Report` and a `Closer`.
abbrev pub of_metrics : (fl : Float64) → Estimator fl → Report
of_metrics fl est = record {
  State = Metrics fl est;
  add = Metrics.add fl est;
  close = Metrics.close fl est;
}

-- `Histogram` as a `Report`; it has no `Close`.
abbrev pub of_histogram : Report
of_histogram = record { State = Histogram.Histogram; add = Histogram.add; close = λ h. h }
