-- ===== src/Pacer/Constant/Schedule.antt =====
-- `ConstantPacer.Pace` keeps the schedule on which hit `n`, counted from 0, is due `(n + 1) * interval`
-- nanoseconds after the attack began.
use vegeta.Prelude.{
  ℕ, ◌+◌, ◌-◌, ◌*◌, ◌/◌, ◌^◌, ◌≤◌, ◌<◌, ◌≡◌, false, arith, ltb, if◌then◌else◌, ◌↔◌, Bool-cases, inl,
  inr, ltb→lt,
}
use native.Mathlib.Nat.{le_trans}
use vegeta.Prelude.Int.{ℤ, pos, negsuc, sub_ℕ, ◌≤ℤ◌, ◌+ℤ◌}
use vegeta.Pacer.Constant.{max_int64, expected_hits, pace}
use vegeta.Pacer.Constant.Laws.{
  hits_per, interval-hits_per, expected_hits-hits_per, delta_exact, interval_zero, pace_positive,
  behind_is_due, due_past_limit, delta_past_limit, int64-sub_negsuc, waits_until, interval_pos,
  le-max_int64, int64-sub,
}
use vegeta.Outcome.{returns, panics}

module _ (f p t h : ℕ) (hf : 0 < f) (hp : p < 2 ^ 63) (ht : t < 2 ^ 63) where
  -- At a valid configuration, of a rate of at most one hit a nanosecond, and while the next due time
  -- fits an int64, `Pace` never stops and never panics. It asks for no wait if the attack is behind
  -- schedule, and otherwise for the signed difference between the due time of the next hit and now.
  pub pace-due :
      f ≤ p
      → (h + 1) * (p / f) < 2 ^ 63
      → pace (hits_per f p) (pos t) h
        ≡ returns (if ltb h (f * (t / p)) then pos 0 else sub_ℕ ((h + 1) * (p / f)) t, false)
  pace-due le due =
      rw
        (
          pace_positive f p (pos t) h hf (omega arith),
          expected_hits-hits_per f p t le ht hp,
          interval-hits_per f p hp,
          delta_exact h (p / f) due (interval_pos f p hf le),
          int64-sub ((h + 1) * (p / f)) t due ht,
        )
        (ground (arith, interval_pos f p hf le, le-max_int64 h (p / f)))

  -- Of a positive period and frequency, `Pace` panics exactly where the rate is of more than one hit a
  -- nanosecond and the attack is not behind schedule.
  pub pace-panics :
      (0 < p)
      → (pace (hits_per f p) (pos t) h ≡ panics)
        ↔ ((p < f) × (expected_hits (hits_per f p) (pos t) ≤ h))
  pace-panics pp =
      rw (pace_positive f p (pos t) h hf pp, interval-hits_per f p hp)
        (ground (arith, interval_pos f p hf, interval_zero f p))

-- A hit is sent no sooner than it is due: from an answer `wait` of `Pace` at the elapsed time `t`, any
-- later time `t'` that is at least `wait` after `t` is at or after `(h + 1) * interval`.
pub pace_never_early :
    (f p t h t' : ℕ) {wait : ℤ}
    → 0 < f
    → f ≤ p
    → p < 2 ^ 63
    → t < 2 ^ 63
    → (h + 1) * (p / f) < 2 ^ 63
    → pace (hits_per f p) (pos t) h ≡ returns (wait, false)
    → t ≤ t'
    → pos t +ℤ wait ≤ℤ pos t'
    → (h + 1) * (p / f) ≤ t'
pace_never_early f p t h t' {wait} hf le hp ht due e later waited =
    elim (Bool-cases (ltb h (f * (t / p)))) [
      | inl behind ↦ le_trans (behind_is_due f p t h (ltb→lt _ _ behind)) later
      | inr ahead ↦ waits_until t _ t' (rw (asked ahead) at waited)
    ]
  where
    asked : ltb h (f * (t / p)) ≡ false → wait ≡ sub_ℕ ((h + 1) * (p / f)) t
    asked ahead = ground (arith, pace-due f p t h hf hp ht le due)

-- At the last number of hits that the overflow check lets through, `max_int64 / interval`, an attack
-- that is not behind schedule is not stopped: the due time has wrapped, and for an elapsed time `t`
-- of at most `(h + 1) * interval - 2^63` the wait that is answered is negative.
pub pace_past_limit :
    (f p t h : ℕ)
    → 0 < f
    → f ≤ p
    → p < 2 ^ 63
    → h ≡ max_int64 / (p / f)
    → f * (t / p) ≤ h
    → t + 2 ^ 63 ≤ (h + 1) * (p / f)
    → (n : ℕ) × (pace (hits_per f p) (pos t) h ≡ returns (negsuc n, false))
pace_past_limit f p t h hf le hp e ahead early = (
  2 ^ 64 - 1 - (h + 1) * (p / f) + t,
  rw
      (
        pace_positive f p (pos t) h hf (omega arith),
        expected_hits-hits_per f p t le time hp,
        interval-hits_per f p hp,
        delta_past_limit h (p / f) ip (omega arith) e,
        int64-sub_negsuc (2 ^ 64 - 1 - (h + 1) * (p / f)) t (omega (arith, wrapped)),
      )
      (ground arith),
)
  where
    ip : 0 < p / f
    ip = interval_pos f p hf le

    wrapped : (max_int64 < (h + 1) * (p / f)) × ((h + 1) * (p / f) ≤ max_int64 + p / f)
    wrapped = due_past_limit h (p / f) ip e

    time : t < 2 ^ 63
    time = omega (arith, wrapped)
