-- ===== src/Targets/Static.antt =====
-- lib/targets.go: `NewStaticTargeter`, as a step on its counter.
pub mod RoundRobin
use vegeta.Prelude.{
  ℕ, zero, suc, ◌+◌, ◌%◌, ◌^◌, ◌==◌, Bool, true, false, Option, none, some, List, [], ◌∷◌,
  if◌then◌else◌, length, get_elem?,
}
use vegeta.Prelude.Int.{ℤ, pos, negsuc, ◌+ℤ◌, int64}
use vegeta.Outcome.{Outcome, returns, panics, Fallible, ok, err}
use vegeta.Targets.{Target, TargetError, nil_target}

-- `tgts[i%int64(len(tgts))]`: the remainder has the sign of `i`, and a negative index panics as one
-- does behind the end.
abbrev pub remainder : ℤ → ℕ → ℤ
remainder (pos n) len = pos (n % len)
remainder (negsuc n) len = if suc n % len == 0 then pos 0 else negsuc (suc n % len)

unfoldable pub at_index : List Target → ℤ → Outcome Target
at_index tgts (negsuc n) = panics
at_index tgts (pos n) = elim (get_elem? tgts n) [ none ↦ panics | some t ↦ returns t ]

-- The targeter over these targets. The flag is `tgt == nil`.
unfoldable pub static : List Target → Bool → ℤ → ℤ × Outcome (Fallible TargetError Target)
static tgts is_nil i =
    let next = int64 (i +ℤ pos 1) in
    let found = at_index tgts (remainder next (length tgts)) in
    if is_nil
    then (i, returns (err nil_target))
    else if length tgts == 0
    then (next, panics)
    else (next, elim found [ panics ↦ panics | returns t ↦ returns (ok t) ])

-- The counter before the first call.
abbrev pub first_counter : ℤ
first_counter = negsuc 0
