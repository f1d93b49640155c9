-- ===== src/Plot/Written/Tests.antt =====
-- The page of a plot with a title, on a paper that takes all that is written.
use vegeta.Prelude.{ℕ, ◌≡◌, refl, Option, none, some, List, [], ◌∷◌, ◌++◌, length, length-append}
use vegeta.Prelude.Int.{pos}
use vegeta.Prelude.Text.{Text, codes}
use vegeta.Float.Sample.{fixed}
use vegeta.Outcome.{Fallible, ok}
use vegeta.Plot
use vegeta.Plot.Written
use vegeta.Plot.Written.Counted.{Grows}

abbrev plain : (F : Type 0) → Plot.Compressor F
plain F = record {
  Data = List (ℕ × F);
  new = [];
  push = λ t v ps. ps ++ (t, v) ∷ [];
  values = λ ps. ps;
}

abbrev tsz : Plot.Compressor fixed.F
tsz = plain fixed.F

abbrev nan : fixed.F
nan = fixed.of_uint 0

abbrev on_paper : Text → Text → Text × ℕ × Option Text
on_paper p w = (w ++ p, length p, none)

on_paper-Grows : Grows on_paper length
on_paper-Grows p w = length-append w p

abbrev marshal : Written.UiOpts → Fallible Text Text
marshal opts = ok opts.title

abbrev template : Written.PageData → List Text × Option Text
template page = (page.title ∷ page.points ∷ [], none)

abbrev titled : Written.Page fixed nan tsz
titled = record { title = codes "Plot"; threshold = pos 10; series = []; label = none }

-- By default a plot has the labels of `ErrorLabeler`.
made :
    Written.new_plot fixed nan tsz (Written.set_title (codes "Plot") ∷ [])
    ≡ record titled { threshold = pos 0; label = some Plot.error_labeler }
unfolding Written.new_plot Written.apply_opts
made = refl
