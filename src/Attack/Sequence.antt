-- ===== src/Attack/Sequence.antt =====
-- The sequence numbers and timestamps that the critical section of `hit` gives out.
use vegeta.Prelude.{
  ℕ, zero, suc, ◌+◌, ◌^◌, ◌≤◌, ◌<◌, ◌≡◌, refl, Bool, ◌&&◌, Option-cases, inl, inr, some, List, [],
  ◌∷◌, arith, length, if◌then◌else◌, ◌==◌, ◌⊎◌, ◌∙◌,
}
use vegeta.Attack.{
  Config, Hit, State, Event, deliver, begin, next_hit, finished, u64, start, take_out, move, run,
}
use vegeta.Attack.Run.{run_inv}
use vegeta.Attack.Workers.{finished_delivers_all}

-- The number of results that pass a test.
abbrev pub tally : (Hit → Bool) → List Hit → ℕ
tally p [] = 0
tally p (h ∷ hs) = (if p h then 1 else 0) + tally p hs

-- From the last result back, the numbers count down to 0, modulo 2^64.
abbrev pub Numbered : List Hit → Type 0
Numbered [] = Unit
Numbered (h ∷ hs) = (h.seq ≡ u64 (length hs)) × Numbered hs

-- From the last result back, no timestamp is later than the one before it.
abbrev pub Ordered : ℕ → List Hit → Type 0
Ordered now [] = Unit
Ordered now (h ∷ hs) = (h.timestamp ≤ now) × Ordered h.timestamp hs

pub record InSequence (s : State) : Type 0 where
  pub numbered : Numbered s.begun
  pub ordered : Ordered s.now s.begun
  pub numbers : s.seq ≡ u64 (length s.begun)
  pub tallied : (p : Hit → Bool) → tally p s.pending + tally p s.delivered ≡ tally p s.begun

Ordered-later : (a b : ℕ) (hs : List Hit) → a ≤ b → Ordered a hs → Ordered b hs
Ordered-later a b [] h o = tt
Ordered-later a b (x ∷ hs) h o = (omega arith, o.1)

tally-take_out :
    (p : Hit → Bool) (i : ℕ) (xs : List Hit) {x : Hit} {ys : List Hit}
    → take_out i xs ≡ some (x, ys)
    → tally p xs ≡ tally p (x ∷ ys)
unfolding take_out
tally-take_out p i [] e = ground arith
tally-take_out p zero (x ∷ xs) e = ground arith
tally-take_out p (suc i) (x ∷ xs) e = elim (Option-cases (take_out i xs)) [
  | inl out ↦ ground arith
  | inr (y, found) ↦ ground (arith, tally-take_out p i xs found)
]

u64-suc : (a n : ℕ) → a ≡ u64 n → u64 (a + 1) ≡ u64 (suc n)
u64-suc a n e = omega arith

-- What a move does to the clock and to the results.
record Keeps (s t : State) : Type 0 where
  later : s.now ≤ t.now
  begun_same : t.begun ≡ s.begun
  seq_same : t.seq ≡ s.seq
  rest_same :
      (p : Hit → Bool)
      → tally p t.pending + tally p t.delivered ≡ tally p s.pending + tally p s.delivered

record Numbers (s t : State) : Type 0 where
  now_same : t.now ≡ s.now
  begun_more : t.begun ≡ next_hit s ∷ s.begun
  seq_more : t.seq ≡ u64 (s.seq + 1)
  pending_more : t.pending ≡ next_hit s ∷ s.pending
  delivered_same : t.delivered ≡ s.delivered

move-cases :
    (c : Config) (s : State) (e : Event) {t : State} → move c s e ≡ some t → Keeps s t ⊎ Numbers s t
unfolding move
move-cases c s (deliver i) e = elim (Option-cases (take_out i s.pending)) [
  | inl out ↦ absurd (ground arith)
  | inr ((x, rest), found) ↦ inl (record {
    later = ground arith;
    begun_same = ground arith;
    seq_same = ground arith;
    rest_same = λ p. ground (arith, tally-take_out p i s.pending found);
  })
]
move-cases c s begin e = inr (ground arith)
move-cases c s _ e = inl (record {
  later = ground arith;
  begun_same = ground arith;
  seq_same = ground arith;
  rest_same = λ p. ground arith;
})

move-InSequence :
    (c : Config) (s : State) (e : Event) {t : State}
    → InSequence s
    → move c s e ≡ some t
    → InSequence t
move-InSequence c s e {t} h m = elim (move-cases c s e m) [
  | inl k ↦ record {
    numbered = rw k.begun_same h.numbered;
    ordered = rw k.begun_same (Ordered-later s.now t.now s.begun k.later h.ordered);
    numbers = rw (k.begun_same, k.seq_same) h.numbers;
    tallied = λ p. rw k.begun_same (k.rest_same p ∙ h.tallied p);
  }
  | inr n ↦ record {
    numbered = rw n.begun_more (h.numbers, h.numbered);
    ordered = rw (n.begun_more, n.now_same) (omega arith, h.ordered);
    numbers = rw (n.begun_more, n.seq_more) (u64-suc s.seq (length s.begun) h.numbers);
    tallied = λ p. rw (n.begun_more, n.pending_more, n.delivered_same) (omega (arith, h.tallied p));
  }
]

start-InSequence : (c : Config) → InSequence (start c)
unfolding start
start-InSequence c = record { numbered = tt; ordered = tt; numbers = refl; tallied = λ p. refl }

-- However the moves interleave, the results are numbered 0, 1, 2, and so on in the order in which
-- they pass the critical section, with timestamps that never go back; and the results that wait to be
-- received and those received are together exactly those that were numbered.
pub run-InSequence :
    (c : Config) (es : List Event) {s : State} → run c (start c) es ≡ some s → InSequence s
run-InSequence c es e =
    run_inv c InSequence (λ s e t. move-InSequence c s e) (start c) es (start-InSequence c) e

abbrev pub has_seq : ℕ → Hit → Bool
has_seq n h = h.seq == n

tally_past :
    (n : ℕ) (hs : List Hit) → Numbered hs → length hs ≤ n → n < 2 ^ 64 → tally (has_seq n) hs ≡ 0
tally_past n [] num le lt = refl
tally_past n (x ∷ hs) num le lt = ground (arith, tally_past n hs num.1)

tally_one :
    (n : ℕ) (hs : List Hit)
    → Numbered hs
    → n < length hs
    → length hs ≤ 2 ^ 64
    → tally (has_seq n) hs ≡ 1
tally_one n [] num lt le = elim lt [ ]
tally_one n (x ∷ hs) num lt le = ground (arith, tally_one n hs num.1, tally_past n hs num.1)

-- Of an attack of at most 2^64 hits that has closed its results, the caller has received each
-- sequence number below the number of hits exactly once.
pub finished_each_once :
    (c : Config) (es : List Event) (n : ℕ) {s : State}
    → c.max_workers < 2 ^ 64
    → run c (start c) es ≡ some s
    → s.phase ≡ finished
    → length s.begun ≤ 2 ^ 64
    → n < length s.begun
    → tally (has_seq n) s.delivered ≡ 1
finished_each_once c es n {s} m r f le lt =
    let q = run-InSequence c es r in
    let none_left : tally (has_seq n) s.pending ≡ 0 =
      rw ((finished_delivers_all c es m r f).2) refl in
    omega (arith, q.tallied (has_seq n), tally_one n s.begun q.numbered lt le, none_left)

-- The same result, as a test.
abbrev pub is_hit : Hit → Hit → Bool
is_hit x h = h.seq == x.seq && h.timestamp == x.timestamp

tally_time :
    (x : Hit) (now : ℕ) (hs : List Hit)
    → Ordered now hs
    → 0 < tally (is_hit x) hs
    → x.timestamp ≤ now
tally_time x now [] o h = elim h [ ]
tally_time x now (y ∷ hs) o h = ground (arith, tally_time x y.timestamp hs o.1)

tally_seq :
    (x : Hit) (hs : List Hit)
    → Numbered hs
    → length hs ≤ 2 ^ 64
    → 0 < tally (is_hit x) hs
    → x.seq < length hs
tally_seq x [] num le h = elim h [ ]
tally_seq x (y ∷ hs) num le h = ground (arith, tally_seq x hs num.1)

order_of_begun :
    (x y : Hit) (now : ℕ) (hs : List Hit)
    → Numbered hs
    → Ordered now hs
    → length hs ≤ 2 ^ 64
    → 0 < tally (is_hit x) hs
    → 0 < tally (is_hit y) hs
    → x.seq < y.seq
    → x.timestamp ≤ y.timestamp
order_of_begun x y now [] num o le hx hy lt = elim hx [ ]
order_of_begun x y now (z ∷ hs) num o le hx hy lt = ground (
  arith,
  order_of_begun x y z.timestamp hs num.1 o.1,
  tally_seq y hs num.1,
  tally_time x z.timestamp hs o.1,
)

-- Of any two results that the caller has received, in whatever order, the one with the smaller number
-- has no later timestamp, as long as no more than 2^64 were numbered.
pub delivered_in_time_order :
    (c : Config) (es : List Event) (x y : Hit) {s : State}
    → run c (start c) es ≡ some s
    → length s.begun ≤ 2 ^ 64
    → 0 < tally (is_hit x) s.delivered
    → 0 < tally (is_hit y) s.delivered
    → x.seq < y.seq
    → x.timestamp ≤ y.timestamp
delivered_in_time_order c es x y {s} r le hx hy lt =
    let q = run-InSequence c es r in
    order_of_begun x y s.now s.begun q.numbered q.ordered le (omega (arith, q.tallied (is_hit x)))
      (omega (arith, q.tallied (is_hit y))) lt
