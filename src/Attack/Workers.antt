-- ===== src/Attack/Workers.antt =====
-- The workers of an attack: how many there are, and what each of them is doing.
use vegeta.Prelude.{
  ℕ, zero, suc, ◌+◌, ◌^◌, ◌≤◌, ◌<◌, ◌≡◌, refl, true, false, Option-cases, inl, inr, some, List, [],
  ◌∷◌, arith, length,
}
use vegeta.Attack.Run.{run_inv}
use vegeta.Attack.{
  Config, State, Event, deliver, offering, finished, u64, start, take_out, is_over, move, run,
}

-- Every worker is in one place. The driver's count of ticks is that of the hits that were numbered
-- or are about to be.
pub record IsAccounted (c : Config) (s : State) : Type 0 where
  pub bounded : s.workers ≤ c.max_workers
  pub spare : s.phase ≡ offering → s.workers < c.max_workers
  pub everywhere : s.roaming + s.idle + s.hitting + length s.pending + s.exited ≡ s.workers
  pub ticks : s.count ≡ u64 (s.hitting + length s.begun)
  pub numbers : s.seq ≡ u64 (length s.begun)
  pub results : length s.begun ≡ length s.pending + length s.delivered
  pub none_gone : is_over s.phase ≡ false → s.exited ≡ 0
  pub all_gone : s.phase ≡ finished → s.exited ≡ s.workers
  pub said_so : s.phase ≡ finished → s.stopped ≡ true

pub length-take_out {ℓ} :
    {A : Type ℓ} (i : ℕ) (xs : List A) {x : A} {ys : List A}
    → take_out i xs ≡ some (x, ys)
    → length xs ≡ suc (length ys)
unfolding take_out
length-take_out i [] e = ground arith
length-take_out zero (x ∷ xs) e = ground arith
length-take_out (suc i) (x ∷ xs) e = elim (Option-cases (take_out i xs)) [
  | inl out ↦ ground arith
  | inr (y, found) ↦ ground (arith, length-take_out i xs found)
]

nil_of_length {ℓ} : {A : Type ℓ} (xs : List A) → length xs ≡ 0 → xs ≡ []
nil_of_length [] e = refl
nil_of_length (x ∷ xs) e = absurd (omega arith)

start-IsAccounted : (c : Config) → IsAccounted c (start c)
unfolding start
start-IsAccounted c = ground arith

move-IsAccounted :
    (c : Config) (s : State) (e : Event) {t : State}
    → c.max_workers < 2 ^ 64
    → IsAccounted c s
    → move c s e ≡ some t
    → IsAccounted c t
unfolding move
move-IsAccounted c s (deliver i) m h e = elim (Option-cases (take_out i s.pending)) [
  | inl out ↦ absurd (ground arith)
  | inr ((x, rest), found) ↦ ground (arith, length-take_out i s.pending found)
]
move-IsAccounted c s _ m h e = ground arith

-- However the moves of the driver, the workers, the clock and the callers of `Stop` interleave, the
-- attack has at most `max_workers` workers, each of them is in one place, and the counts of ticks,
-- numbers and results agree.
pub run-IsAccounted :
    (c : Config) (es : List Event) {s : State}
    → c.max_workers < 2 ^ 64
    → run c (start c) es ≡ some s
    → IsAccounted c s
run-IsAccounted c es m e =
    run_inv c (IsAccounted c) (λ s e t. move-IsAccounted c s e m) (start c) es (start-IsAccounted c)
      e

-- Once the results channel is closed every worker has returned, every tick that was sent has led to
-- a numbered result, and the caller has received as many results as were numbered.
pub finished_delivers_all :
    (c : Config) (es : List Event) {s : State}
    → c.max_workers < 2 ^ 64
    → run c (start c) es ≡ some s
    → s.phase ≡ finished
    → (s.exited ≡ s.workers)
      × (s.hitting ≡ 0)
      × (s.pending ≡ [])
      × (length s.delivered ≡ length s.begun)
      × (s.count ≡ u64 (length s.delivered))
finished_delivers_all c es {s} m e f =
    ground (arith, run-IsAccounted c es m e, nil_of_length s.pending)
