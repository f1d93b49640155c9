-- ===== src/Reporters/Tests.antt =====
-- A duration of an hour and twenty-nine seconds, and a latency between the buckets 1 and 5.
use vegeta.Prelude.{◌≡◌, refl}
use vegeta.Prelude.Int.{pos}
use vegeta.Reporters.{round_to, round_by, round}

hour : round (pos 3_629_000_000_000) ≡ pos 3_600_000_000_000
unfolding round round_by round_to
hour = refl
