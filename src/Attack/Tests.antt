-- ===== src/Attack/Tests.antt =====
-- An attack of one worker for 25 nanoseconds, at one hit every 10, from its start to its end.
use vegeta.Prelude.{◌*◌, ◌/◌, ◌≤◌, ◌≡◌, refl, true, arith, some, List, [], ◌∷◌, length}
use vegeta.Prelude.Int.{pos, ◌+ℤ◌, ◌-ℤ◌, int64}
use vegeta.Pacer.Constant
use vegeta.Pacer.Constant.Laws.{hits_per}
use vegeta.Attack.{
  Config, Hit, State, Event, elapse, check, wake, send, arrive, begin, deliver, exit, close,
  finished, start, take_out, move, step, run, u64,
}
use vegeta.Attack.Workers.{IsAccounted, run-IsAccounted, finished_delivers_all}
use vegeta.Attack.Sequence.{
  InSequence, tally, has_seq, run-InSequence, finished_each_once, delivered_in_time_order,
}
use vegeta.Attack.Rate.{IsPunctual}
use vegeta.Attack.Rate.Constant.{due_at, constant-IsPunctual, is_by, constant_rate_bounded}
use vegeta.Prelude.{none, false}
use vegeta.Prelude.Text.{Text, codes}
use vegeta.Outcome.{Fallible, ok}
use vegeta.Targets.{Target}
use vegeta.Attack.Exchange.{Request, Response, Options, hit}
use vegeta.Attack.Exchange.Outcomes.{
  IsNoisyClient, IsHonest, IsLimited, hit-IsHonest, hit-IsLimited,
}
use vegeta.Prelude.{ℕ, ◌<◌, map}
use vegeta.Prelude.Map.{nat_eq, lookup}
use vegeta.Prelude.Text.{text_key}
use vegeta.Results.{Result}
use vegeta.Float.Sample.{fixed}
use vegeta.Plot
use vegeta.Plot.Sample.{tsz}
use vegeta.Plot.View.{shown}
use vegeta.Attack.Plotted.{IsResponse, hit_at, received, received-IsPlotted}

abbrev config : Config
config = record { pace = Constant.pace (hits_per 1 10); du = pos 25; workers = 4; max_workers = 1 }

abbrev round : List Event → List Event
round rest = arrive ∷ check ∷ elapse 10 ∷ wake ∷ send ∷ begin ∷ deliver 0 ∷ rest

abbrev schedule : List Event
schedule = round (round (round (arrive ∷ check ∷ exit ∷ close ∷ [])))

abbrev hits : List Hit
hits =
    record { seq = 2; timestamp = 30 }
    ∷ record { seq = 1; timestamp = 20 }
    ∷ record { seq = 0; timestamp = 10 }
    ∷ []

abbrev last : State
last = record {
  phase = finished;
  workers = 1;
  count = 3;
  seq = 3;
  now = 30;
  stopped = true;
  roaming = 0;
  idle = 0;
  hitting = 0;
  pending = [];
  exited = 1;
  begun = hits;
  delivered = hits;
}

whole_run : run config (start config) schedule ≡ some last
unfolding run step move start Constant.pace Constant.expected_hits Constant.interval ◌+ℤ◌ int64 ◌-ℤ◌
    Constant.delta take_out
whole_run = refl

run-IsAccounted_example : IsAccounted config last
run-IsAccounted_example = run-IsAccounted config schedule (omega arith) whole_run

finished_delivers_all_example :
    (last.exited ≡ last.workers)
    × (last.hitting ≡ 0)
    × (last.pending ≡ [])
    × (length last.delivered ≡ length last.begun)
    × (last.count ≡ u64 (length last.delivered))
finished_delivers_all_example = finished_delivers_all config schedule (omega arith) whole_run refl

run-InSequence_example : InSequence last
run-InSequence_example = run-InSequence config schedule whole_run

finished_each_once_example : tally (has_seq 1) hits ≡ 1
finished_each_once_example =
    finished_each_once config schedule 1 (omega arith) whole_run refl (omega arith) (omega arith)

delivered_in_time_order_example : 10 ≤ 20
delivered_in_time_order_example =
    delivered_in_time_order config schedule (record { seq = 0; timestamp = 10 })
      (record { seq = 1; timestamp = 20 }) whole_run (omega arith) (omega arith) (omega arith)
      (omega arith)

punctual : IsPunctual config.pace (due_at 10) 4
punctual = constant-IsPunctual 1 10 4 (omega arith) (omega arith) (omega arith) (omega arith)

constant_rate_bounded_example : tally (is_by 25) hits * (10 / 1) ≤ 25
constant_rate_bounded_example =
    constant_rate_bounded config 1 10 4 25 schedule refl (omega arith) (omega arith) (omega arith)
      (omega arith) whole_run (omega arith) (omega arith)

-- What each hit gets: a result with its number and its time.
abbrev answered : Hit → Result
answered h = record {
  attack = codes "a";
  seq = h.seq;
  code = 200;
  timestamp = pos h.timestamp;
  latency = pos 2;
  bytes_out = 0;
  bytes_in = 0;
  error = [];
  body = [];
  method = [];
  url = [];
  headers = none;
}

answered-IsResponse : IsResponse (codes "a") answered
answered-IsResponse = record {
  seq_same = λ h. refl;
  time_same = λ h. refl;
  attack_same = λ h. refl;
}

received-IsPlotted_example :
    (ls : Plot.LabeledSeries fixed tsz) × (Plot.add_all fixed tsz Plot.error_labeler
        (map answered (received last))
        (Plot.new_labeled_series fixed tsz)
      ≡ (ls, none))
    × (ls.seq ≡ 3)
    × ((k : ℕ) → lookup k ls.buf ≡ none)
    × ((j : ℕ)
        → j < 3
        → lookup (Plot.error_labeler (answered (hit_at hits j))) ls.series
          ≡ some (
              shown fixed tsz Plot.error_labeler
                (λ k. answered (hit_at hits k))
                (Plot.error_labeler (answered (hit_at hits j)))
                3))
received-IsPlotted_example =
    received-IsPlotted fixed tsz Plot.error_labeler (codes "a") answered answered-IsResponse config
      schedule (omega arith) whole_run refl (omega arith) (omega arith)

abbrev answer : Response
answer = record {
  status = codes "200 OK";
  status_code = 200;
  header = [];
  bytes = codes "hello";
  broken = none;
}

abbrev make_request : Text → Text → Text → Fallible Text Request
make_request m u b =
    ok (record { host = u; header = []; transfer_encoding = []; content_length = pos (length b) })

abbrev answer_all : Request → Fallible Text Response
answer_all q = ok answer

abbrev options : Options
options = record { name = codes "a"; chunked = false; max_body = pos 3 }

abbrev target : Target
target = record { method = codes "GET"; url = codes "http://a/"; body = []; header = [] }

abbrev first_hit : Hit
first_hit = record { seq = 0; timestamp = 10 }

noisy : IsNoisyClient make_request answer_all
noisy = record {
  new_errors = λ m u b h. cc;
  do_errors = λ q h. cc;
  answers = λ q resp h. (λ e. cc, λ e. cc);
}

hit-IsHonest_example :
    IsHonest (hit make_request answer_all options (pos 10) first_hit (ok target)).0
hit-IsHonest_example =
    hit-IsHonest make_request answer_all options (pos 10) first_hit (ok target) noisy (λ e. cc)

hit-IsLimited_example :
    IsLimited 3 (hit make_request answer_all options (pos 10) first_hit (ok target)).0
hit-IsLimited_example =
    hit-IsLimited make_request answer_all options 3 (pos 10) first_hit (ok target) refl
