-- ===== src/Attack/Moves.antt =====
-- The step function as a relation, as far as the clock, the driver and the ticks go.
use vegeta.Prelude.{ℕ, ◌+◌, ◌-◌, ◌<◌, ◌≡◌, refl, true, inl, inr, Option-cases, some, ◌∷◌, arith}
use vegeta.Prelude.Int.{ℤ, pos, ◌≤ℤ◌}
use vegeta.Attack.{
  Config, Phase, looping, sleeping, offering, blocking, draining, finished, State, Event, check,
  wake, deliver, u64, take_out, is_select, after_sleep, check_time, wake_up, next_hit, move,
}

-- A move leaves these alone.
pub record SameTicks (s t : State) : Type 0 where
  pub now_same : t.now ≡ s.now
  pub count_same : t.count ≡ s.count
  pub hitting_same : t.hitting ≡ s.hitting
  pub begun_same : t.begun ≡ s.begun

pub data Moves (c : Config) (s t : State) : Type 0 where
  passes : (d : ℕ) → t ≡ record s { now = s.now + d } → Moves c s t
  checks : s.phase ≡ looping → t ≡ check_time c s → Moves c s t
  wakes :
      (until : ℤ)
      → s.phase ≡ sleeping until
      → until ≤ℤ pos s.now
      → t ≡ after_sleep c s
      → Moves c s t
  sends :
      is_select s.phase ≡ true
      → 0 < s.idle
      → t ≡ record s {
        phase = looping;
        count = u64 (s.count + 1);
        idle = s.idle - 1;
        hitting = s.hitting + 1;
      }
      → Moves c s t
  begins :
      0 < s.hitting
      → t ≡ record s {
        hitting = s.hitting - 1;
        seq = u64 (s.seq + 1);
        pending = next_hit s ∷ s.pending;
        begun = next_hit s ∷ s.begun;
      }
      → Moves c s t
  spawns : s.phase ≡ offering → t.phase ≡ blocking → SameTicks s t → Moves c s t
  drains : t.phase ≡ draining → SameTicks s t → Moves c s t
  ends : t.phase ≡ finished → SameTicks s t → Moves c s t
  others : t.phase ≡ s.phase → SameTicks s t → Moves c s t

wake_up-Moves :
    (c : Config) (s : State) (p : Phase) {t : State}
    → s.phase ≡ p
    → wake_up c s p ≡ some t
    → Moves c s t
unfolding wake_up
wake_up-Moves c s (sleeping until) e h = wakes until e (ground arith) (ground arith)
wake_up-Moves c s _ e h = absurd (ground arith)

pub move-Moves :
    (c : Config) (s : State) (e : Event) {t : State} → move c s e ≡ some t → Moves c s t
unfolding move
move-Moves c s (Event.elapse d) h = passes d (ground arith)
move-Moves c s check h = checks (ground arith) (ground arith)
move-Moves c s wake h = wake_up-Moves c s s.phase refl h
move-Moves c s Event.send h = sends (ground arith) (ground arith) (ground arith)
move-Moves c s Event.halt h = drains (ground arith) (ground arith)
move-Moves c s Event.spawn h = spawns (ground arith) (ground arith) (ground arith)
move-Moves c s Event.arrive h = others (ground arith) (ground arith)
move-Moves c s Event.begin h = begins (ground arith) (ground arith)
move-Moves c s (deliver i) h = elim (Option-cases (take_out i s.pending)) [
  | inl out ↦ absurd (ground arith)
  | inr ((x, rest), found) ↦ others (ground arith) (ground arith)
]
move-Moves c s Event.exit h = others (ground arith) (ground arith)
move-Moves c s Event.close h = ends (ground arith) (ground arith)
move-Moves c s Event.stop h = others (ground arith) (ground arith)
