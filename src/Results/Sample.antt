-- ===== src/Results/Sample.antt =====
-- Results for the tests.
use vegeta.Prelude.{ℕ, ◌+◌, some, List, [], ◌∷◌}
use vegeta.Prelude.Int.{pos}
use vegeta.Prelude.Text.{Text, codes}
use vegeta.Results.{Result}

abbrev pub sample : ℕ → ℕ → ℕ → Text → Result
sample seq code latency error = record {
  attack = codes "test";
  seq = seq;
  code = code;
  timestamp = pos (1_000 + seq);
  latency = pos latency;
  bytes_out = 5;
  bytes_in = 7;
  error = error;
  body = [];
  method = codes "GET";
  url = codes "http://a/";
  headers = some ((codes "A", codes "b" ∷ []) ∷ []);
}

abbrev pub samples : List Result
samples = sample 2 200 30 [] ∷ sample 1 500 20 (codes "timeout") ∷ sample 0 200 10 [] ∷ []
