-- ===== src/Pacer/Sine.antt =====
-- lib/pacer.go, `SinePacer`, over the floats of the parameter `fl`.
pub mod Refine
use vegeta.Prelude.{ℕ, zero, suc, ◌+◌, ◌%◌, ◌^◌, Bool, true, false, ◌||◌, ltb, if◌then◌else◌}
use vegeta.Prelude.Int.{ℤ, pos, ◌+ℤ◌, leb_ℤ, int64}
use vegeta.Float.{Float64}
use vegeta.Pacer.Constant
use vegeta.Pacer.Constant.{ConstantPacer}

pub record SinePacer (fl : Float64) : Type 0 where
  pub period : ℤ
  pub mean : ConstantPacer
  pub amp : ConstantPacer
  pub start_at : fl.F

module _ (fl : Float64) where
  open fl use {
    F, add, sub, mul, div, lt, le, of_int, of_uint, thousandth, to_int64, to_uint64, round, abs,
    sin, cos, pi,
  }

  -- `invalid`: the constraints that the fields' comments state.
  unfoldable pub invalid : SinePacer fl → Bool
  invalid sp =
      let mean = Constant.hits_per_ns fl sp.mean in
      leb_ℤ sp.period (pos 0) || le mean (of_uint 0) || le mean (Constant.hits_per_ns fl sp.amp)

  unfoldable pub amp_hits : SinePacer fl → F
  amp_hits sp = div (mul (Constant.hits_per_ns fl sp.amp) (of_int sp.period)) (mul (of_uint 2) pi)

  unfoldable pub radians : SinePacer fl → ℤ → F
  radians sp t = add sp.start_at (div (mul (mul (of_int t) (of_uint 2)) pi) (of_int sp.period))

  unfoldable pub hits_per_ns : SinePacer fl → ℤ → F
  hits_per_ns sp t =
      add (Constant.hits_per_ns fl sp.mean)
        (mul (Constant.hits_per_ns fl sp.amp) (sin (radians sp t)))

  unfoldable pub rate : SinePacer fl → ℤ → F
  rate sp t = mul (hits_per_ns sp t) (of_uint 1_000_000_000)

  -- `hits`: the hits due by `t`.
  unfoldable pub hits : SinePacer fl → ℤ → F
  hits sp t =
      if leb_ℤ t (pos 0) || invalid sp
      then of_uint 0
      else add (mul (Constant.hits_per_ns fl sp.mean) (of_int t))
          (mul (amp_hits sp) (sub (cos sp.start_at) (cos (radians sp t))))

  -- The body of the loop of `Pace`: whether the guess is good, and the next guess.
  module _ (sp : SinePacer fl) (elapsed : ℤ) (n : ℕ) where
    unfoldable pub hits_at : ℤ → F
    hits_at guess = hits sp (int64 (elapsed +ℤ guess))

    unfoldable pub is_close : ℤ → Bool
    is_close guess = lt (abs (sub (of_uint ((n + 1) % 2 ^ 64)) (hits_at guess))) thousandth

    unfoldable pub improve : ℤ → ℤ
    improve guess = to_int64 (div (of_int guess) (sub (hits_at guess) (of_uint n)))

    -- The loop, with the number of rounds left.
    unfoldable pub refine : ℕ → ℤ → ℤ
    refine zero guess = guess
    refine (suc rounds) guess =
        let rest = refine rounds (improve guess) in if is_close guess then guess else rest

    unfoldable pub first_guess : ℤ
    first_guess =
        let ns_per_hit = round (div (of_uint 1) (hits_per_ns sp elapsed)) in
        to_int64 (mul ns_per_hit (sub (of_uint ((n + 1) % 2 ^ 64)) (hits sp elapsed)))

    unfoldable pub pace : ℤ × Bool
    pace =
        if invalid sp
        then (pos 0, true)
        else if ltb n (to_uint64 (hits sp elapsed))
        then (pos 0, false)
        else (refine 5 first_guess, false)
