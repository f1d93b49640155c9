-- ===== src/Pacer/Tests.antt =====
-- The pacers at concrete rates.
use vegeta.Prelude.{◌≡◌, refl, false, arith}
use vegeta.Prelude.Int.{pos, int64, ◌-ℤ◌}
use vegeta.Outcome.{returns}
use vegeta.Float.{seconds}
use vegeta.Float.Sample.{fixed}
use vegeta.Pacer.Constant
use vegeta.Pacer.Linear
use vegeta.Pacer.Constant.{max_int64, expected_hits}
use vegeta.Pacer.Constant.Laws.{hits_per}
use vegeta.Pacer.Constant.Schedule.{pace-due}
use vegeta.Pacer.Linear.{LinearPacer}
use vegeta.Pacer.Sine.{SinePacer}

pace-due_example : Constant.pace (hits_per 1 10) (pos 15) 1 ≡ returns (pos 5, false)
pace-due_example =
    pace-due 1 10 15 1 (omega arith) (omega arith) (omega arith) (omega arith) (omega arith)

at_start : Constant.pace (hits_per 1 10) (pos 0) 0 ≡ returns (pos 10, false)
unfolding Constant.pace expected_hits Constant.interval int64 ◌-ℤ◌ Constant.delta
at_start = refl

-- One hit a second from the start, and no slope.
abbrev steady : LinearPacer fixed
unfolding fixed
steady = record { start_at = hits_per 1 1_000_000_000; slope = pos 0 }

steady_wait : (Linear.pace fixed steady (pos 1_000_000_000) 1).0 ≡ pos 1_000_000_000
unfolding Linear.pace fixed Linear.hits seconds Constant.hits_per_ns Linear.interval Linear.rate
steady_wait = refl

-- A mean of one hit a second, over a minute, with half a hit more or less.
abbrev wave : SinePacer fixed
unfolding fixed
wave = record {
  period = pos 60_000_000_000;
  mean = hits_per 1 1_000_000_000;
  amp = hits_per 1 2_000_000_000;
  start_at = pos 0;
}
