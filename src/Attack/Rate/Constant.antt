-- ===== src/Attack/Rate/Constant.antt =====
-- An attack that a `ConstantPacer` paces.
use vegeta.Prelude.{
  ℕ, ◌+◌, ◌*◌, ◌/◌, ◌^◌, ◌≤◌, ◌<◌, ◌≡◌, some, List, [], ◌∷◌, arith, length, leb, Bool, Bool-cases,
  inl, inr, leb→le,
}
use vegeta.Pacer.Constant
use vegeta.Pacer.Constant.Laws.{hits_per, mul_mono, interval_pos}
use vegeta.Pacer.Constant.Schedule.{pace_never_early}
use vegeta.Attack.{Config, Hit, State, Event, start, run}
use vegeta.Attack.Sequence.{tally}
use vegeta.Attack.Rate.{IsPunctual, IsOnSchedule, sent, run-IsOnSchedule}

abbrev pub due_at : ℕ → ℕ → ℕ
due_at step k = (k + 1) * step

-- `ConstantPacer` is punctual: hit `k` is due `(k + 1) * (p / f)` nanoseconds into the attack.
pub constant-IsPunctual :
    (f p limit : ℕ)
    → 0 < f
    → f ≤ p
    → p < 2 ^ 63
    → limit * (p / f) < 2 ^ 63
    → IsPunctual (Constant.pace (hits_per f p)) (due_at (p / f)) limit
constant-IsPunctual f p limit hf le hp fits = record {
  small = omega (arith, mul_mono 1 (p / f) limit (interval_pos f p hf le));
  monotone = λ a b h. grind arith;
  waits = λ t h t' wait ht lim e later slept.
      pace_never_early f p t h t' hf le hp ht
        (omega (arith, mul_mono (h + 1) limit (p / f) (omega arith))) e later slept;
}

abbrev pub is_by : ℕ → Hit → Bool
is_by time h = leb h.timestamp time

tally-le-length : (time : ℕ) (hs : List Hit) → tally (is_by time) hs ≤ length hs
tally-le-length time [] = omega arith
tally-le-length time (h ∷ hs) = ground (arith, tally-le-length time hs)

tally_on_schedule :
    (step time : ℕ) (hs : List Hit)
    → IsOnSchedule (due_at step) hs
    → tally (is_by time) hs * step ≤ time
tally_on_schedule step time [] on = omega arith
tally_on_schedule step time (h ∷ hs) on = elim (Bool-cases (is_by time h)) [
  | inl by ↦ rw by (
      omega (
        arith,
        on.0,
        mul_mono (1 + tally (is_by time) hs) (length hs + 1) step
            (omega (arith, tally-le-length time hs)),
        leb→le h.timestamp time by,
      ))
  | inr later ↦ rw later (ground (arith, tally_on_schedule step time hs on.1))
]

-- An attack at a constant rate of `f` hits per `p` nanoseconds, of at most one hit a nanosecond, takes
-- `p / f` nanoseconds, rounded down to whole ones, or more for each hit: however the moves interleave,
-- as long as the clock is below 2^63 and fewer than `limit` hits were sent, where `limit` such times fit
-- an int64, the hits sent in the first `time` nanoseconds take at most `time` at `p / f` each.
pub constant_rate_bounded :
    (c : Config) (f p limit time : ℕ) (es : List Event) {s : State}
    → c.pace ≡ Constant.pace (hits_per f p)
    → 0 < f
    → f ≤ p
    → p < 2 ^ 63
    → limit * (p / f) < 2 ^ 63
    → run c (start c) es ≡ some s
    → s.now < 2 ^ 63
    → sent s < limit
    → tally (is_by time) s.begun * (p / f) ≤ time
constant_rate_bounded c f p limit time es {s} e hf le hp fits r now lim =
    let on_time : IsPunctual c.pace (due_at (p / f)) limit =
      rw e (constant-IsPunctual f p limit hf le hp fits) in
    tally_on_schedule (p / f) time s.begun
      (run-IsOnSchedule c (due_at (p / f)) limit on_time es r now lim)
