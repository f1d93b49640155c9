-- ===== src/Attack.antt =====
-- lib/attack.go: `Attack` with its driver goroutine, its workers and `Stop`, as a step function over a
-- schedule. An event is one move of one goroutine, of the clock, or of a caller of `Stop`.
mod Run
mod Moves
mod Tests
pub mod Workers
pub mod Sequence
pub mod Plotted
pub mod Rate
pub mod Exchange
pub mod Settings
use vegeta.Prelude.{
  ℕ, zero, suc, ◌+◌, ◌-◌, ◌%◌, ◌^◌, Bool, true, false, not, ◌&&◌, ◌||◌, Option, none, some, List,
  [], ◌∷◌, ltb, leb, ◌==◌, if◌then◌else◌, length,
}
use vegeta.Prelude.Int.{ℤ, pos, ◌+ℤ◌, ltb_ℤ, leb_ℤ}
use vegeta.Outcome.{Outcome, returns, panics}

-- What the arguments of `Attack` and the fields of the Attacker fix: `Pace` of the pacer, the duration
-- in nanoseconds, and the two numbers of workers.
pub record Config : Type 0 where
  pub pace : ℤ → ℕ → Outcome (ℤ × Bool)
  pub du : ℤ
  pub workers : ℕ
  pub max_workers : ℕ

-- What the critical section of `hit` gives a result.
pub record Hit : Type 0 where
  pub seq : ℕ
  pub timestamp : ℕ

-- Where the driver goroutine stands.
pub data Phase : Type 0 where
  looping : Phase  -- at the head of its loop
  sleeping : ℤ → Phase  -- in `time.Sleep`, until the elapsed time
  offering : Phase  -- at the select with a default
  blocking : Phase  -- at the select without
  draining : Phase  -- it has closed `ticks`, and is in `wg.Wait`
  finished : Phase  -- it has closed `results` and called `Stop`
  crashed : Phase  -- the pacer panicked, which ends the process

-- Each worker is in one of the places that the numbers count: on its way to `range ticks`, waiting
-- there, in `hit` before the critical section, in `hit` or sending behind it, or returned.
pub record State : Type 0 where
  pub phase : Phase
  pub workers : ℕ  -- uint64, the driver's variable
  pub count : ℕ  -- uint64, the driver's variable
  pub seq : ℕ  -- uint64, `atk.seq`
  pub now : ℕ  -- nanoseconds since `atk.began`
  pub stopped : Bool  -- `stopch` is closed
  pub roaming : ℕ
  pub idle : ℕ
  pub hitting : ℕ
  pub pending : List Hit
  pub exited : ℕ
  pub begun : List Hit  -- the results numbered so far, the last one first
  pub delivered : List Hit  -- the results that the caller received, the last one first

pub data Event : Type 0 where
  elapse : ℕ → Event  -- time passes
  check : Event  -- the driver checks the duration and asks the pacer
  wake : Event  -- `time.Sleep` returns
  send : Event  -- the driver sends a tick to a waiting worker
  halt : Event  -- the driver receives from `stopch`
  spawn : Event  -- the default case: one more worker
  arrive : Event  -- a worker comes to `range ticks`
  begin : Event  -- a worker passes the critical section
  deliver : ℕ → Event  -- the caller receives a pending result
  exit : Event  -- a worker finds `ticks` closed
  close : Event  -- `wg.Wait` returns
  stop : Event  -- a caller, or a worker whose targeter fails, calls `Stop`

abbrev pub u64 : ℕ → ℕ
u64 n = n % 2 ^ 64

unfoldable pub start : Config → State
start c =
    let n = if ltb c.max_workers c.workers then c.max_workers else c.workers in
    record {
      phase = looping;
      workers = n;
      count = 0;
      seq = 0;
      now = 0;
      stopped = false;
      roaming = n;
      idle = 0;
      hitting = 0;
      pending = [];
      exited = 0;
      begun = [];
      delivered = [];
    }

-- The result at a place of a list, and the others.
unfoldable pub take_out {ℓ} : {A : Type ℓ} → ℕ → List A → Option (A × List A)
take_out i [] = none
take_out zero (x ∷ xs) = some (x, xs)
take_out (suc i) (x ∷ xs) = elim (take_out i xs) [ none ↦ none | some (y, ys) ↦ some (y, x ∷ ys) ]

-- What the driver does with an answer of the pacer.
unfoldable pub obey : State → Outcome (ℤ × Bool) → State
obey s panics = record s { phase = crashed }
obey s (returns (wait, true)) = record s { phase = draining }
obey s (returns (wait, false)) = record s { phase = sleeping (pos s.now +ℤ wait) }

-- The head of the driver's loop: the duration, the pacer, and the sleep.
unfoldable pub check_time : Config → State → State
unfolding obey
check_time c s =
    if ltb_ℤ (pos 0) c.du && ltb_ℤ c.du (pos s.now)
    then record s { phase = draining }
    else obey s (c.pace (pos s.now) s.count)

-- Behind the sleep: the first select is reached only with workers to spare.
abbrev pub after_sleep : Config → State → State
after_sleep c s = record s { phase = if ltb s.workers c.max_workers then offering else blocking }

abbrev pub is_select : Phase → Bool
is_select offering = true
is_select blocking = true
is_select _ = false

abbrev pub is_offering : Phase → Bool
is_offering offering = true
is_offering _ = false

abbrev pub is_looping : Phase → Bool
is_looping looping = true
is_looping _ = false

abbrev pub is_draining : Phase → Bool
is_draining draining = true
is_draining _ = false

-- `ticks` is closed.
abbrev pub is_over : Phase → Bool
is_over draining = true
is_over finished = true
is_over _ = false

unfoldable pub wake_up : Config → State → Phase → Option State
wake_up c s (sleeping until) = if leb_ℤ until (pos s.now) then some (after_sleep c s) else none
wake_up c s _ = none

unfoldable pub receive : State → Option (Hit × List Hit) → Option State
receive s none = none
receive s (some (h, rest)) =
    some (record s { pending = rest; delivered = h ∷ s.delivered; roaming = s.roaming + 1 })

-- The critical section of `hit`: the timestamp and the number are read together.
abbrev pub next_hit : State → Hit
next_hit s = record { seq = s.seq; timestamp = s.now }

abbrev pub is_crashed : Phase → Bool
is_crashed crashed = true
is_crashed _ = false

-- The moves of a process that runs. `none`: the move is not possible in the state.
unfoldable pub move : Config → State → Event → Option State
unfolding check_time wake_up receive
move c s (elapse d) = some (record s { now = s.now + d })
move c s check = if is_looping s.phase then some (check_time c s) else none
move c s wake = wake_up c s s.phase
move c s send =
    if is_select s.phase && ltb 0 s.idle
    then some (record s {
      phase = looping;
      count = u64 (s.count + 1);
      idle = s.idle - 1;
      hitting = s.hitting + 1;
    })
    else none
move c s halt =
    if is_select s.phase && s.stopped then some (record s { phase = draining }) else none
move c s spawn =
    if is_offering s.phase && s.idle == 0 && not s.stopped
    then some
        (record s { phase = blocking; workers = u64 (s.workers + 1); roaming = s.roaming + 1 })
    else none
move c s arrive =
    if ltb 0 s.roaming then some (record s { roaming = s.roaming - 1; idle = s.idle + 1 }) else none
move c s begin =
    if ltb 0 s.hitting
    then some (record s {
      hitting = s.hitting - 1;
      seq = u64 (s.seq + 1);
      pending = next_hit s ∷ s.pending;
      begun = next_hit s ∷ s.begun;
    })
    else none
move c s (deliver i) = receive s (take_out i s.pending)
move c s exit =
    if is_over s.phase && ltb 0 s.idle
    then some (record s { idle = s.idle - 1; exited = s.exited + 1 })
    else none
move c s close =
    if is_draining s.phase && s.exited == s.workers
    then some (record s { phase = finished; stopped = true })
    else none
move c s stop = some (record s { stopped = true })

unfoldable pub step : Config → State → Event → Option State
step c s e = if is_crashed s.phase then none else move c s e

-- `Stop` itself: its result says whether `stopch` was open.
unfoldable pub stop_result : State → Bool
stop_result s = not s.stopped

-- A schedule of moves that are possible in turn.
unfoldable pub run : Config → State → List Event → Option State
run c s [] = some s
run c s (e ∷ es) = elim (step c s e) [ none ↦ none | some t ↦ run c t es ]
