-- ===== src/Commands/Launch/Tests.antt =====
-- An attack on a file of two targets, in an environment in which all files can be opened.
use vegeta.Prelude.{
  ◌%◌, ◌≡◌, refl, true, false, none, some, List, [], ◌∷◌, length, get_elem?, arith,
}
use vegeta.Prelude.Map.{lookup}
use vegeta.Prelude.Text.{text_eq, codes}
use vegeta.Outcome.{ok, returns}
use vegeta.Targets.{Target}
use vegeta.Targets.Http.Sample.{
  any_uri, same_file, get_block, post_block, scanner, get_block-IsPrintable, post_block-IsPrintable,
}
use vegeta.Targets.Static.{static}
use vegeta.Targets.Static.RoundRobin.{counter_after}
use vegeta.Commands.{opened, open_file}
use vegeta.Commands.Launch.{Opts, statically, goes_on, World, prepare}
use vegeta.Commands.Launch.Turns.{IsEager, targets_of, prepare-TakesTurns}

abbrev permissive : World
permissive = record {
  create_error = λ name. none;
  open_error = λ name. none;
  read_bytes = λ f. ok [];
  reader_of = λ f. record { lines = []; tail = []; broken = false };
  scanner_of = λ f. scanner;
  is_uri = any_uri;
  body_file = same_file;
  parse = λ line. none;
  split_host_port = λ addr. none;
  is_ip = λ host. true;
  read_file = λ name. ok name;
  key_pair_error = λ cert key. none;
  is_pem = λ cert. true;
  register_error = none;
}

abbrev opts : Opts
opts = record {
  targetsf = codes "targets.txt";
  format = codes "http";
  outputf = codes "results.bin";
  bodyf = [];
  certf = [];
  keyf = [];
  root_certs = [];
  insecure = false;
  lazy = false;
  freq = 50;
  max_workers = 10;
  headers = [];
  resolvers = [];
  prom_addr = [];
}

opts-IsEager : IsEager permissive opts (opened (codes "targets.txt"))
unfolding open_file text_eq
opts-IsEager = record {
  limited = refl;
  no_resolvers = refl;
  no_body = refl;
  some_file = refl;
  can_open = refl;
  format_http = refl;
  eager = refl;
}

abbrev two_targets : List Target
two_targets =
    targets_of permissive opts (opened (codes "targets.txt")) opts-IsEager
      (get_block ∷ post_block ∷ [])

prepare-TakesTurns_example :
    (prepare permissive opts []
      ≡ (opened (codes "targets.txt") ∷ [], goes_on (statically two_targets)))
    × (t : Target) × (get_elem? two_targets (3 % length two_targets) ≡ some t)
    × ((static two_targets false (counter_after two_targets 3)).1 ≡ returns (ok t))
unfolding lookup
prepare-TakesTurns_example =
    prepare-TakesTurns permissive opts (opened (codes "targets.txt")) opts-IsEager get_block
      (post_block ∷ []) [] (record { lines = refl; clean = refl })
      (get_block-IsPrintable, (post_block-IsPrintable, tt)) ((refl, tt), (tt, tt)) tt 3
      (omega arith)
