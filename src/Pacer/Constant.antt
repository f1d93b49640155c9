-- ===== src/Pacer/Constant.antt =====
-- lib/pacer.go, `ConstantPacer`. `Freq` is an int and `Per` a Duration, both 64 bits wide.
pub mod Laws
pub mod Schedule
use vegeta.Prelude.{
  ℕ, ◌+◌, ◌-◌, ◌*◌, ◌/◌, ◌%◌, ◌^◌, Bool, true, false, ◌||◌, ltb, ◌==◌, if◌then◌else◌,
}
use vegeta.Prelude.Int.{ℤ, pos, ◌-ℤ◌, ◌/ℤ◌, ltb_ℤ, ◌==ℤ◌, uint64, signed64, int64}
use vegeta.Float.{Float64}
use vegeta.Outcome.{Outcome, returns, panics}

pub record ConstantPacer : Type 0 where
  pub freq : ℤ
  pub per : ℤ

abbrev pub max_int64 : ℕ
max_int64 = 2 ^ 63 - 1

-- `expectedHits` of `Pace`, with the conversions to uint64 and the product modulo 2^64.
unfoldable pub expected_hits : ConstantPacer → ℤ → ℕ
unfolding uint64 ◌/ℤ◌
expected_hits cp elapsed = (uint64 cp.freq * uint64 (elapsed /ℤ cp.per)) % 2 ^ 64

-- `interval` of `Pace`: nanoseconds from one hit to the next.
unfoldable pub interval : ConstantPacer → ℕ
unfolding uint64 ◌/ℤ◌
interval cp = uint64 (cp.per /ℤ cp.freq)

-- `time.Duration((hits + 1) * interval)`, converted from uint64.
unfoldable pub delta : ℕ → ℕ → ℤ
unfolding signed64
delta hits step = signed64 (((hits + 1) % 2 ^ 64 * step) % 2 ^ 64)

-- `Pace`. The division `math.MaxInt64/interval` panics on a zero interval.
unfoldable pub pace : ConstantPacer → ℤ → ℕ → Outcome (ℤ × Bool)
pace cp elapsed hits =
    if cp.per ==ℤ pos 0 || cp.freq ==ℤ pos 0
    then returns (pos 0, false)
    else if ltb_ℤ cp.per (pos 0) || ltb_ℤ cp.freq (pos 0)
    then returns (pos 0, true)
    else if ltb hits (expected_hits cp elapsed)
    then returns (pos 0, false)
    else if interval cp == 0
    then panics
    else if ltb (max_int64 / interval cp) hits
    then returns (pos 0, true)
    else returns (int64 (delta hits (interval cp) -ℤ elapsed), false)

module _ (fl : Float64) where
  open fl use {F, mul, div, of_int, of_uint}

  -- `hitsPerNs` and `Rate`.
  unfoldable pub hits_per_ns : ConstantPacer → F
  hits_per_ns cp = div (of_int cp.freq) (of_int cp.per)

  unfoldable pub rate : ConstantPacer → ℤ → F
  unfolding hits_per_ns
  rate cp elapsed = mul (hits_per_ns cp) (of_uint 1_000_000_000)
