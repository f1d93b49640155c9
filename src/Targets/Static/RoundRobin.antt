-- ===== src/Targets/Static/RoundRobin.antt =====
-- The order in which `NewStaticTargeter` gives out its targets.
use vegeta.Prelude.{
  ℕ, zero, suc, ◌%◌, ◌^◌, ◌≤◌, ◌<◌, ◌==◌, ◌≡◌, refl, ap, ◌∙◌, false, some, List, length, get_elem?,
  get_elem?-below, arith, Bool-cases, inl, inr,
}
use vegeta.Prelude.Int.{ℤ, pos, ◌+ℤ◌, int64}
use vegeta.Outcome.{returns, ok}
use vegeta.Targets.{Target}
use vegeta.Targets.Static.{at_index, static, first_counter}

-- The counter after so many calls.
abbrev pub counter_after : List Target → ℕ → ℤ
counter_after tgts zero = first_counter
counter_after tgts (suc k) = (static tgts false (counter_after tgts k)).0

-- The counter as the number of the last call, from 0 on.
abbrev pub counter : ℕ → ℤ
counter zero = first_counter
counter (suc k) = pos k

static_next : (tgts : List Target) (k : ℕ) → k < 2 ^ 63 → int64 (counter k +ℤ pos 1) ≡ pos k
unfolding int64 ◌+ℤ◌
static_next tgts zero h = refl
static_next tgts (suc k) h = ground arith

static-counter :
    (tgts : List Target) (k : ℕ) → k < 2 ^ 63 → (static tgts false (counter k)).0 ≡ counter (suc k)
unfolding static
static-counter tgts k h = elim (Bool-cases (length tgts == 0)) [
  | inl e ↦ rw (e, static_next tgts k h)
  | inr e ↦ rw (e, static_next tgts k h)
]

counter_after-counter : (tgts : List Target) (k : ℕ) → k ≤ 2 ^ 63 → counter_after tgts k ≡ counter k
counter_after-counter tgts zero h = refl
counter_after-counter tgts (suc k) h =
    ap (λ i. (static tgts false i).0) (counter_after-counter tgts k (omega (arith, h)))
    ∙ static-counter tgts k (omega (arith, h))

-- The call that follows `k` calls gives the target at `k` modulo their number and no error, as long as
-- there are targets and no more than 2^63 calls in all: the targets are given out in turns.
pub static-IsRoundRobin :
    (tgts : List Target) (k : ℕ)
    → 0 < length tgts
    → k < 2 ^ 63
    → (t : Target) × (get_elem? tgts (k % length tgts) ≡ some t)
      × ((static tgts false (counter_after tgts k)).1 ≡ returns (ok t))
unfolding static at_index
static-IsRoundRobin tgts k some_target h =
    let (t, e) = get_elem?-below tgts (k % length tgts) (omega (arith, some_target)) in
    let off : (length tgts == 0) ≡ false = ground (arith, some_target) in
    (t, e, rw (counter_after-counter tgts k (omega (arith, h)), static_next tgts k h, e, off))
