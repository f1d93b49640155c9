-- ===== src/Targets/Tests.antt =====
-- A file of two targets, read back, and three static targets.
use vegeta.Prelude.{
  ◌≢◌, suc, ◌%◌, ◌≡◌, refl, false, arith, Option, none, some, List, [], ◌∷◌, map, length, get_elem?,
}
use vegeta.Prelude.Text.{Text, codes}
use vegeta.Prelude.Map.{lookup}
use vegeta.Outcome.{Fallible, returns, ok, err}
use vegeta.Targets.{Target, TargetError, rounds_ran_out}
use vegeta.Targets.Http.{decode}
use vegeta.Targets.Http.Written.{target_of}
use vegeta.Targets.Http.Sample.{
  any_uri, same_file, get_block, post_block, blocks, scanner, get_block-IsPrintable,
  post_block-IsPrintable,
}
use vegeta.Targets.ReadAll.Ends.{lines_left, read_all-ends}
use vegeta.Targets.Json.{Reader, decode_json}
use vegeta.Targets.ReadAll.{read_all}
use vegeta.Targets.ReadAll.Files.{targeter, read_all-file}
use vegeta.Targets.Static.{static}
use vegeta.Targets.Static.RoundRobin.{counter_after, static-IsRoundRobin}

abbrev default_body : Text
default_body = codes "none"

read_all-file_example :
    read_all (targeter any_uri same_file default_body []) 3 scanner
    ≡ some (ok (map (target_of any_uri same_file default_body []) blocks))
unfolding lookup
read_all-file_example =
    read_all-file any_uri same_file default_body [] get_block (post_block ∷ []) [] 3 scanner
      (omega arith) (record { lines = refl; clean = refl })
      (get_block-IsPrintable, (post_block-IsPrintable, tt)) ((refl, tt), (tt, tt)) tt

abbrev targets : List Target
targets =
    map (target_of any_uri same_file default_body []) (get_block ∷ post_block ∷ get_block ∷ [])

static-IsRoundRobin_example :
    (t : Target) × (get_elem? targets (4 % length targets) ≡ some t)
    × ((static targets false (counter_after targets 4)).1 ≡ returns (ok t))
static-IsRoundRobin_example = static-IsRoundRobin targets 4 (omega arith) (omega arith)

abbrev no_json : Text → Option Target
no_json line = none

abbrev one_line : Reader
one_line = record { lines = codes "{}" ∷ []; tail = []; broken = false }

abbrev blank_target : Target
blank_target = record { method = []; url = []; body = []; header = [] }

read_all-ends_example :
    ((got : Fallible TargetError (List Target)) × (read_all
          (decode any_uri same_file default_body [] false)
          (suc (lines_left scanner))
          scanner
        ≡ some got)
      × (got ≢ err rounds_ran_out))
    × ((got : Fallible TargetError (List Target)) × (read_all
            (decode_json no_json default_body [] (some blank_target))
            2
            one_line
          ≡ some got)
        × (got ≢ err rounds_ran_out))
read_all-ends_example =
    read_all-ends any_uri same_file no_json default_body [] blank_target scanner one_line
