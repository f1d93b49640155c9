-- ===== src/Pacer/Linear.antt =====
-- lib/pacer.go, `LinearPacer`, over the floats of the parameter `fl`.
use vegeta.Prelude.{
  ℕ, ◌+◌, ◌/◌, ◌%◌, ◌^◌, Bool, true, false, not, ◌||◌, ◌&&◌, ltb, ◌==◌, if◌then◌else◌,
}
use vegeta.Prelude.Int.{ℤ, pos, ltb_ℤ, ◌==ℤ◌}
use vegeta.Float.{Float64, seconds}
use vegeta.Pacer.Constant
use vegeta.Pacer.Constant.{ConstantPacer, max_int64}

pub record LinearPacer (fl : Float64) : Type 0 where
  pub start_at : ConstantPacer
  pub slope : fl.F

module _ (fl : Float64) where
  open fl use {F, add, sub, mul, div, of_uint, to_int64, to_uint64, round, pow}

  -- `Rate`: hits per second at the elapsed time.
  unfoldable pub rate : LinearPacer fl → ℤ → F
  rate p elapsed =
      let b = mul (Constant.hits_per_ns fl p.start_at) (of_uint 1_000_000_000) in
      add (mul p.slope (seconds fl elapsed)) b

  -- `hits`: the hits due by `t`.
  unfoldable pub hits : LinearPacer fl → ℤ → F
  hits p t =
      let b = mul (Constant.hits_per_ns fl p.start_at) (of_uint 1_000_000_000) in
      let x = seconds fl t in
      if ltb_ℤ t (pos 0)
      then of_uint 0
      else add (div (mul p.slope (pow x (of_uint 2))) (of_uint 2)) (mul b x)

  -- `interval` of `Pace`: the rounded nanoseconds from one hit to the next.
  unfoldable pub interval : LinearPacer fl → ℤ → F
  interval p elapsed = round (div (of_uint 1_000_000_000) (rate p elapsed))

  unfoldable pub pace : LinearPacer fl → ℤ → ℕ → ℤ × Bool
  pace p elapsed n =
      let expected = hits p elapsed in
      let step = interval p elapsed in
      let whole = to_uint64 step in
      if p.start_at.per ==ℤ pos 0 || p.start_at.freq ==ℤ pos 0
      then (pos 0, false)
      else if ltb_ℤ p.start_at.per (pos 0) || ltb_ℤ p.start_at.freq (pos 0)
      then (pos 0, true)
      else if n == 0 || ltb n (to_uint64 expected)
      then (pos 0, false)
      else if not (whole == 0) && ltb (max_int64 / whole) n
      then (pos 0, true)
      else (to_int64 (mul step (sub (of_uint ((n + 1) % 2 ^ 64)) expected)), false)
