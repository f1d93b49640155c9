-- ===== src/Plot/Sample.antt =====
-- A compressor for the tests of lib/plot/plot.go.
use vegeta.Prelude.{ℕ, ◌++◌, List, [], ◌∷◌}
use vegeta.Float.Sample.{fixed}
use vegeta.Plot

-- A list of the pairs, for the compressed series.
abbrev plain : (F : Type 0) → Plot.Compressor F
plain F = record {
  Data = List (ℕ × F);
  new = [];
  push = λ t v ps. ps ++ (t, v) ∷ [];
  values = λ ps. ps;
}

abbrev pub tsz : Plot.Compressor (fixed.F)
tsz = plain fixed.F
