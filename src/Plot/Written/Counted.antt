-- ===== src/Plot/Written/Counted.antt =====
-- lib/plot/plot.go: the number of bytes that `WriteTo` returns.
use vegeta.Prelude.{ℕ, ◌+◌, ◌≡◌, refl, inl, inr, Bool, Option, List, [], ◌∷◌, arith, Option-cases}
use vegeta.Prelude.Text.{Text}
use vegeta.Float.{Float64}
use vegeta.Outcome.{Fallible, Fallible-cases}
use vegeta.Plot
use vegeta.Plot.Written

module _ {W : Type 0} (write : Text → W → W × ℕ × Option Text) (size : W → ℕ) where
  -- A writer returns how many bytes it has taken.
  abbrev pub Grows : Type 0
  Grows = (p : Text) (w : W) → size (write p w).0 ≡ size w + (write p w).1

  execute-Grows :
      Grows
      → (pieces : List Text) (own : Option Text) (w : W) (n : ℕ)
      → size (Written.execute write pieces own (w, n)).0.0 + n
        ≡ size w + (Written.execute write pieces own (w, n)).0.1
  unfolding Written.execute Written.counting_write
  execute-Grows grows [] own w n = refl
  execute-Grows grows (p ∷ ps) own w n = elim (Option-cases (write p w).2) [
    | inr (e, f) ↦ rw (Written.execute, Written.counting_write, f) (omega (arith, grows p w))
    | inl f ↦
        rw (Written.execute, Written.counting_write, f)
          (omega (arith, grows p w, execute-Grows grows ps own (write p w).0 (n + (write p w).1)))
  ]

module _ (fl : Float64) (nan : fl.F) (tsz : Plot.Compressor (fl.F)) (is_nan : fl.F → Bool)
    (format_float : fl.F → Text) (marshal : Written.UiOpts → Fallible Text Text)
    (asset : Text → Fallible Text Text) (template : Written.PageData → List Text × Option Text)
    {W : Type 0} (write : Text → W → W × ℕ × Option Text) where
  -- The number of bytes that `WriteTo` returns is that of the bytes that the writer has taken, on every
  -- path: also when the data, the options, an asset or the template fail, or the writer on the way.
  pub write_to-Counts :
      (size : W → ℕ)
      → Grows write size
      → (p : Written.Page fl nan tsz) (w : W)
      → let (w1, n, e) =
          Written.write_to fl nan tsz is_nan format_float marshal asset template write p w in
        size w1 ≡ size w + n
  unfolding Written.write_to
  write_to-Counts size grows p w =
      elim (Fallible-cases
        (Written.page_data fl nan tsz is_nan format_float marshal asset template write p)) [
          | inr (e, f) ↦ rw (Written.write_to, f) (omega arith)
          | inl (page, f) ↦
              rw (Written.write_to, f)
                (omega
                  (arith, execute-Grows write size grows (template page).0 (template page).1 w 0))
        ]
