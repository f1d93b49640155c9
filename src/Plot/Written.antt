-- ===== src/Plot/Written.antt =====
-- lib/plot/plot.go: a plot with its options, and the page that `WriteTo` writes. The formatting of a float, the
-- encoding of the options, the assets and the template are parameters.
pub mod Counted
mod Tests
use vegeta.Prelude.{
  ℕ, ◌+◌, Bool, true, false, Option, none, some, List, [], ◌∷◌, ◌++◌, if◌then◌else◌, drop, length,
}
use vegeta.Prelude.Int.{ℤ, pos}
use vegeta.Prelude.Text.{Text, codes, is_empty}
use vegeta.Outcome.{Fallible, ok, err, ◌>>=◌}
use vegeta.Results.{Result}
use vegeta.Float.{Float64}
use vegeta.Lttb.{LttbError}
use vegeta.Plot
use vegeta.Plot.Page.{plot_data, label_colors}

-- `dataPoints.Append`, with the test for `NaN` and the formatting of other floats.
module _ {F : Type 0} (is_nan : F → Bool) (format_float : F → Text) where
  abbrev pub cell : F → Text
  cell f = if is_nan f then codes "null" else format_float f

  -- The loop over a row: a comma behind each cell but the last.
  unfoldable pub cells : List F → Text
  cells [] = []
  cells (f ∷ fs) = cell f ++ ((if is_empty fs then [] else codes ",") ++ cells fs)

  -- The loop over the rows.
  unfoldable pub row_texts : List (List F) → Text
  unfolding cells
  row_texts [] = []
  row_texts (p ∷ ps) =
      codes "  ["
      ++ (cells p ++ (codes "]" ++ ((if is_empty ps then [] else codes ",\n  ") ++ row_texts ps)))

  unfoldable pub append_points : List (List F) → Text → Text
  unfolding row_texts
  append_points ps buf = buf ++ (codes "[\n  " ++ (row_texts ps ++ codes "  ]"))

-- What `WriteTo` encodes as the options of the page.
pub record UiOpts : Type 0 where
  pub title : Text
  pub labels : List Text
  pub colors : List Text

-- What the template is given.
pub record PageData : Type 0 where
  pub title : Text
  pub css : Text
  pub js : Text
  pub plugins : Text
  pub points : Text  -- the field `Data`
  pub opts : Text

pub data WriteError : Type 0 where
  bad_data : LttbError Text → WriteError
  bad_opts : Text → WriteError
  bad_asset : Text → WriteError
  bad_page : Text → WriteError

-- An error in the terms of another.
abbrev pub wrapped : {D E A : Type 0} → (D → E) → Fallible D A → Fallible E A
wrapped wrap (ok a) = ok a
wrapped wrap (err e) = err (wrap e)

-- The writer under a `countingWriter` and the bytes counted.
module _ {W : Type 0} (write : Text → W → W × ℕ × Option Text) where
  -- `countingWriter.Write`.
  unfoldable pub counting_write : Text → W × ℕ → (W × ℕ) × Option Text
  counting_write p (w, n) = let (w1, m, e) = write p w in ((w1, n + m), e)

  -- The template writes its pieces one after another and ends at the first error, or with its own.
  unfoldable pub execute : List Text → Option Text → W × ℕ → (W × ℕ) × Option Text
  unfolding counting_write
  execute [] own cw = (cw, own)
  execute (p ∷ ps) own cw =
      let written = counting_write p cw in
      elim (written.1) [ none ↦ execute ps own written.0 | some e ↦ (written.0, some e) ]

module _ (fl : Float64) (nan : fl.F) (tsz : Plot.Compressor (fl.F)) where
  -- `Plot`; a nil label is `none`.
  pub record Page : Type 0 where
    pub title : Text
    pub threshold : ℤ
    pub series : List (Text × Plot.LabeledSeries fl tsz)
    pub label : Option (Result → Text)

  pub data Opt : Type 0 where
    set_title : Text → Opt
    set_downsample : ℤ → Opt
    set_label : (Result → Text) → Opt

  -- `Title`, `Downsample` and `Label`.
  abbrev pub apply_opt : Opt → Page → Page
  apply_opt (set_title title) p = record p { title = title }
  apply_opt (set_downsample threshold) p = record p { threshold = threshold }
  apply_opt (set_label l) p = record p { label = some l }

  unfoldable pub apply_opts : List Opt → Page → Page
  apply_opts [] p = p
  apply_opts (opt ∷ opts) p = apply_opts opts (apply_opt opt p)

  abbrev pub or_default : Page → Page
  or_default p = elim (p.label) [ none ↦ record p { label = some Plot.error_labeler } | some l ↦ p ]

  -- `New`.
  unfoldable pub new_plot : List Opt → Page
  unfolding apply_opts
  new_plot opts =
      or_default
        (apply_opts opts (record { title = []; threshold = pos 0; series = []; label = none }))

  module _ (is_nan : fl.F → Bool) (format_float : fl.F → Text)
      (marshal : UiOpts → Fallible Text Text) (asset : Text → Fallible Text Text)
      (template : PageData → List Text × Option Text) {W : Type 0}
      (write : Text → W → W × ℕ × Option Text) where
    -- What the template is given, or the error on the way to it.
    unfoldable pub page_data : Page → Fallible WriteError PageData
    unfolding append_points label_colors plot_data
    page_data p = wrapped bad_data (plot_data fl nan tsz p.threshold p.series) >>= λ found.
        wrapped bad_opts (
          marshal
            (record { title = p.title; labels = found.1; colors = label_colors (drop 1 found.1) }))
        >>= λ opts_json. wrapped bad_asset (asset (codes "uPlot.min.js")) >>= λ js.
            wrapped bad_asset (asset (codes "uPlot.min.css")) >>= λ css.
            wrapped bad_asset (asset (codes "uplot-plugins.js")) >>= λ plugins. ok (record {
              title = p.title;
              css = css;
              js = js;
              plugins = plugins;
              points = append_points is_nan format_float found.0 [];
              opts = opts_json;
            })

    abbrev pub page_error : Option Text → Option WriteError
    page_error none = none
    page_error (some e) = some (bad_page e)

    -- `WriteTo`: the writer behind it, the number of bytes and the error.
    unfoldable pub write_to : Page → W → W × ℕ × Option WriteError
    unfolding page_data execute
    write_to p w = elim (page_data p) [
      | err e ↦ (w, 0, some e)
      | ok page ↦
          let (pieces, own) = template page in
          let written = execute write pieces own (w, 0) in
          (written.0.0, written.0.1, page_error written.1)
    ]
