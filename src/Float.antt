-- ===== src/Float.antt =====
-- Go's `float64`, as far as the program uses it: a parameter of every definition that computes with
-- floats. No law of it is assumed. `Duration.Seconds` of the package `time` is written out.
pub mod Sample
use vegeta.Prelude.{ℕ, ◌≡◌, Bool}
use vegeta.Prelude.Int.{ℤ, pos, ◌-ℤ◌, ◌*ℤ◌, ◌/ℤ◌}

pub record Float64 : Type 1 where
  pub F : Type 0
  pub add : F → F → F
  pub sub : F → F → F
  pub mul : F → F → F
  pub div : F → F → F
  pub lt : F → F → Bool
  pub le : F → F → Bool
  pub of_int : ℤ → F  -- float64(x) of a signed integer
  pub of_uint : ℕ → F  -- float64(x) of an unsigned integer, and the integer constants
  pub thousandth : F  -- the constant 1e-3
  pub to_int64 : F → ℤ  -- int64(x)
  pub to_uint64 : F → ℕ  -- uint64(x)
  pub round : F → F  -- math.Round
  pub abs : F → F  -- math.Abs
  pub pow : F → F → F  -- math.Pow
  pub sin : F → F  -- math.Sin
  pub cos : F → F  -- math.Cos
  pub pi : F  -- math.Pi

abbrev pub second : ℕ
second = 1_000_000_000

-- `d.Seconds()`: whole seconds and the rest are converted apart.
module _ (fl : Float64) where
  open fl use {F, add, div, of_int, of_uint}

  unfoldable pub seconds : ℤ → F
  seconds d =
      let s = d /ℤ pos second in
      add (of_int s) (div (of_int (d -ℤ s *ℤ pos second)) (of_uint second))
