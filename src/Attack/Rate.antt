-- ===== src/Attack/Rate.antt =====
-- The rate of an attack: how soon a hit can be numbered, given what the pacer promises.
pub mod Constant
use native.Mathlib.Nat.{le_trans}
use vegeta.Prelude.{
  ℕ, zero, suc, ◌+◌, ◌-◌, ◌*◌, ◌/◌, ◌%◌, ◌^◌, ◌≤◌, ◌<◌, ◌≡◌, refl, ◌⊎◌, inl, inr, Bool, true, false,
  Option, none, some, List, [], ◌∷◌, arith, length, if◌then◌else◌, Bool-cases, Option-cases, ltb,
  ◌&&◌,
}
use vegeta.Prelude.Int.{ℤ, pos, ◌+ℤ◌, ◌≤ℤ◌, ltb_ℤ}
use vegeta.Outcome.{Outcome, returns, panics}
use vegeta.Attack.{
  Config, Hit, Phase, looping, sleeping, offering, blocking, draining, finished, crashed, State,
  Event, elapse, check, wake, deliver, begin, u64, start, take_out, receive, is_select, obey,
  check_time, wake_up, move, step, run, next_hit,
}
use vegeta.Attack.Moves.{
  SameTicks, Moves, passes, checks, wakes, sends, begins, spawns, drains, ends, others, move-Moves,
}
use vegeta.Attack.Run.{run_inv}

-- A pacer keeps the schedule `due` for its first `limit` hits: whoever sleeps as long as it asks does
-- not go on before the hit is due.
pub record IsPunctual (pace : ℤ → ℕ → Outcome (ℤ × Bool)) (due : ℕ → ℕ) (limit : ℕ) : Type 0 where
  pub small : limit ≤ 2 ^ 64
  pub monotone : (a b : ℕ) → a ≤ b → due a ≤ due b
  pub waits :
      (t h t' : ℕ) (wait : ℤ)
      → t < 2 ^ 63
      → h < limit
      → pace (pos t) h ≡ returns (wait, false)
      → t ≤ t'
      → pos t +ℤ wait ≤ℤ pos t'
      → due h ≤ t'

-- The hit with `k` hits before it was numbered no sooner than `due k`.
abbrev pub IsOnSchedule : (ℕ → ℕ) → List Hit → Type 0
IsOnSchedule due [] = Unit
IsOnSchedule due (h ∷ hs) = (due (length hs) ≤ h.timestamp) × IsOnSchedule due hs

-- The ticks sent so far.
abbrev pub sent : State → ℕ
sent s = s.hitting + length s.begun

module _ (due : ℕ → ℕ) (limit : ℕ) where
  -- What the phase knows of the next hit.
  abbrev NextDue : State → Phase → Type 0
  NextDue s (sleeping until) = (t : ℕ) → s.now ≤ t → until ≤ℤ pos t → due (sent s) ≤ t
  NextDue s offering = due (sent s) ≤ s.now
  NextDue s blocking = due (sent s) ≤ s.now
  NextDue s _ = Unit

  record Facts (s : State) : Type 0 where
    on_schedule : IsOnSchedule due s.begun
    last_due : (k : ℕ) → k < sent s → due k ≤ s.now
    next_due : NextDue s s.phase

  -- While the clock and the ticks are within bounds. Both only grow.
  abbrev IsWithin : State → Type 0
  IsWithin s = (s.now < 2 ^ 63) × (sent s < limit)

  record IsPaced (s : State) : Type 0 where
    counted : s.count ≡ u64 (sent s)
    facts : IsWithin s → Facts s

  -- The bound of a phase moves with the clock, and holds of a state with the same ticks.
  NextDue-later :
      (s t : State) (p : Phase) → s.now ≤ t.now → sent t ≡ sent s → NextDue s p → NextDue t p
  NextDue-later s t (sleeping until) n e h = λ k le u. rw e (h k (omega arith) u)
  NextDue-later s t offering n e h = rw e (omega (arith, h))
  NextDue-later s t blocking n e h = rw e (omega (arith, h))
  NextDue-later s t _ n e h = tt

  NextDue-selecting :
      (s : State) (p : Phase) → is_select p ≡ true → NextDue s p → due (sent s) ≤ s.now
  NextDue-selecting s offering e h = h
  NextDue-selecting s _ e h = ground arith

  SameTicks-Facts : (s t : State) → SameTicks s t → Facts s → NextDue t t.phase → Facts t
  SameTicks-Facts s t same f n = record {
    on_schedule = rw same.begun_same f.on_schedule;
    last_due = λ k h. rw same.now_same (f.last_due k (ground arith));
    next_due = n;
  }

  SameTicks-IsPaced :
      (s t : State) → SameTicks s t → IsPaced s → (Facts s → NextDue t t.phase) → IsPaced t
  SameTicks-IsPaced s t same h n = record {
    counted = rw (same.count_same, same.hitting_same, same.begun_same) h.counted;
    facts = λ w. let f = h.facts (ground arith) in SameTicks-Facts s t same f (n f);
  }

abbrev after_begin : State → State
after_begin s = record s {
  hitting = s.hitting - 1;
  seq = u64 (s.seq + 1);
  pending = next_hit s ∷ s.pending;
  begun = next_hit s ∷ s.begun;
}

at_phase : (s : State) (p : Phase) → SameTicks s (record s { phase = p })
at_phase s p = record { now_same = refl; count_same = refl; hitting_same = refl; begun_same = refl }

sent_same : (s t : State) → SameTicks s t → sent t ≡ sent s
sent_same s t same = ground arith

module _ (c : Config) (due : ℕ → ℕ) (limit : ℕ) (on_time : IsPunctual c.pace due limit) where
  start-IsPaced : IsPaced due limit (start c)
  unfolding start
  start-IsPaced = record {
    counted = refl;
    facts = λ w. record { on_schedule = tt; last_due = λ k h. elim h [ ]; next_due = tt };
  }

  obey-IsPaced :
      (s : State) (answer : Outcome (ℤ × Bool))
      → c.pace (pos s.now) s.count ≡ answer
      → IsPaced due limit s
      → IsPaced due limit (obey s answer)
  unfolding obey
  obey-IsPaced s panics e h = SameTicks-IsPaced due limit s _ (at_phase s crashed) h (λ f. tt)
  obey-IsPaced s (returns (wait, true)) e h =
      SameTicks-IsPaced due limit s _ (at_phase s draining) h (λ f. tt)
  obey-IsPaced s (returns (wait, false)) e h = record {
    counted = h.counted;
    facts = λ w.
        let f = h.facts w in
        let exact : s.count ≡ sent s = omega (arith, h.counted, on_time.small) in
        record {
          on_schedule = f.on_schedule;
          last_due = f.last_due;
          next_due = λ t' later slept.
              on_time.waits s.now (sent s) t' wait w.0 w.1 (rw exact at e) later slept;
        };
  }

  check_time-IsPaced : (s : State) → IsPaced due limit s → IsPaced due limit (check_time c s)
  unfolding check_time
  check_time-IsPaced s h = elim (Bool-cases (ltb_ℤ (pos 0) c.du && ltb_ℤ c.du (pos s.now))) [
    | inl over ↦ rw over (SameTicks-IsPaced due limit s _ (at_phase s draining) h (λ f. tt))
    | inr on ↦ rw on (obey-IsPaced s (c.pace (pos s.now) s.count) refl h)
  ]

  Moves-IsPaced : (s t : State) → IsPaced due limit s → Moves c s t → IsPaced due limit t
  Moves-IsPaced s t h (passes d e) = rw e (record {
    counted = h.counted;
    facts = λ w.
        let f = h.facts (omega arith, w.1) in
        record {
          on_schedule = f.on_schedule;
          last_due = λ k lt. omega (arith, f.last_due k lt);
          next_due =
              NextDue-later due limit s (record s { now = s.now + d }) s.phase (omega arith) refl
                f.next_due;
        };
  })
  Moves-IsPaced s t h (checks p e) = rw e (check_time-IsPaced s h)
  Moves-IsPaced s t h (wakes until p le e) = rw e (elim (Bool-cases (ltb s.workers c.max_workers)) [
    | inl spare ↦ rw spare (SameTicks-IsPaced due limit s _ (at_phase s offering) h (λ f. awake f))
    | inr full ↦ rw full (SameTicks-IsPaced due limit s _ (at_phase s blocking) h (λ f. awake f))
  ])
    where
      awake : Facts due limit s → due (sent s) ≤ s.now
      awake f = (rw p at f.next_due) s.now (omega arith) le
  Moves-IsPaced s t h (sends p i e) = rw e (record {
    counted = omega (arith, h.counted);
    facts = λ w.
        let f = h.facts (w.0, omega arith) in
        let now_due = NextDue-selecting due limit s s.phase p f.next_due in
        record {
          on_schedule = f.on_schedule;
          last_due = λ k lt. le_trans (on_time.monotone k (sent s) (omega arith)) now_due;
          next_due = tt;
        };
  })
  Moves-IsPaced s t h (begins hit e) =
      let same_number : s.hitting - 1 + suc (length s.begun) ≡ sent s = omega arith in
      rw e (record {
        counted = rw same_number h.counted;
        facts = λ w.
            let f = h.facts (w.0, omega arith) in
            record {
              on_schedule = (f.last_due (length s.begun) (omega arith), f.on_schedule);
              last_due = λ k lt. f.last_due k (omega arith);
              next_due =
                  NextDue-later due limit s (after_begin s) s.phase (omega arith) same_number
                    f.next_due;
            };
      })
  Moves-IsPaced s t h (spawns o b same) = SameTicks-IsPaced due limit s t same h (λ f. rw b (
      NextDue-later due limit s t blocking (ground arith) (sent_same s t same)
        (rw o at f.next_due)))
  Moves-IsPaced s t h (drains p same) = SameTicks-IsPaced due limit s t same h (λ f. rw p tt)
  Moves-IsPaced s t h (ends p same) = SameTicks-IsPaced due limit s t same h (λ f. rw p tt)
  Moves-IsPaced s t h (others p same) = SameTicks-IsPaced due limit s t same h (λ f.
      rw p (NextDue-later due limit s t s.phase (ground arith) (sent_same s t same) f.next_due))

  -- With a punctual pacer, and however the moves interleave, the hit that has `k` hits before it is
  -- numbered, and so sent, no sooner than `due k` nanoseconds after the attack began. The schedule of
  -- the pacer must cover the ticks sent, and the run must be shorter than 2^63 nanoseconds.
  pub run-IsOnSchedule :
      (es : List Event) {s : State}
      → run c (start c) es ≡ some s
      → s.now < 2 ^ 63
      → sent s < limit
      → IsOnSchedule due s.begun
  run-IsOnSchedule es {s} e now lim =
      let paced =
        run_inv c (IsPaced due limit) (λ s e t h m. Moves-IsPaced s t h (move-Moves c s e m))
          (start c) es start-IsPaced e in
      (paced.facts (now, lim)).on_schedule
