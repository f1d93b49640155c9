-- ===== src/Commands/Dispatch/Tests.antt =====
-- A run of `vegeta -profile=cpu,heap dump`.
use vegeta.Prelude.{none, false, Option, List, [], ◌∷◌}
use vegeta.Prelude.Int.{pos}
use vegeta.Prelude.Text.{Text, codes}
use vegeta.Commands.Dispatch.{Ended, returns, Global}

abbrev create_any : Text → Option Text
create_any name = none

abbrev commands : List (Text × (List Text → Ended))
commands = (codes "dump", λ args. returns none) ∷ []

abbrev profiled : Global
profiled = record {
  cpus = pos 4;
  profile = codes "cpu, heap";
  version = false;
  args = codes "dump" ∷ [];
}
