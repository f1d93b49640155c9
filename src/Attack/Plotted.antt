-- ===== src/Attack/Plotted.antt =====
-- lib/attack.go with lib/plot/plot.go: the results of an attack in the plot that they are added to.
use vegeta.Prelude.{
  ltb→lt, ℕ, suc, ◌+◌, ◌^◌, ◌≤◌, ◌<◌, ◌≡◌, refl, sym, ap, ◌∙◌, inl, inr, Bool, true, false, none,
  some, List, [], ◌∷◌, map, if◌then◌else◌, ltb, length, arith, All, Bool-cases,
}
use vegeta.Prelude.Int.{pos}
use vegeta.Prelude.Text.{Text, text_key}
use vegeta.Prelude.Map.{nat_eq, lookup}
use vegeta.Float.{Float64}
use vegeta.Results.{Result}
use vegeta.Attack.{Config, Hit, State, Event, start, run, finished}
use vegeta.Attack.Workers.{finished_delivers_all}
use vegeta.Attack.Sequence.{
  tally, Numbered, Ordered, has_seq, is_hit, run-InSequence, finished_each_once,
}
use vegeta.Plot
use vegeta.Plot.View.{has, IsAttack, shown}
use vegeta.Plot.Orders.{Once, IsUpTo, add_all-ForgetsOrder}

-- The hit of a number among those that were numbered, the last one first; behind the last, hits of its time.
abbrev pub hit_at : List Hit → ℕ → Hit
hit_at [] k = record { seq = k; timestamp = 0 }
hit_at (h ∷ hs) k =
    if ltb k (length hs) then hit_at hs k else record { seq = k; timestamp = h.timestamp }

hit_at-seq : (hs : List Hit) (k : ℕ) → (hit_at hs k).seq ≡ k
hit_at-seq [] k = refl
hit_at-seq (h ∷ hs) k = ground (arith, hit_at-seq hs k)

hit_at-below : (t : ℕ) (hs : List Hit) (k : ℕ) → Ordered t hs → (hit_at hs k).timestamp ≤ t
hit_at-below t [] k o = omega arith
hit_at-below t (h ∷ hs) k o = ground (arith, o.0, hit_at-below h.timestamp hs k o.1)

hit_at-Ordered :
    (t : ℕ) (hs : List Hit) (k : ℕ)
    → Ordered t hs
    → (hit_at hs k).timestamp ≤ (hit_at hs (suc k)).timestamp
hit_at-Ordered t [] k o = omega arith
hit_at-Ordered t (h ∷ hs) k o =
    ground (arith, hit_at-below h.timestamp hs k o.1, hit_at-Ordered h.timestamp hs k o.1)

tally_beyond :
    (k : ℕ) (hs : List Hit)
    → Numbered hs
    → length hs ≤ 2 ^ 64
    → length hs ≤ k
    → tally (has_seq k) hs ≡ 0
tally_beyond k [] num le beyond = refl
tally_beyond k (h ∷ hs) num le beyond =
    ground (arith, num.0, tally_beyond k hs num.1 (omega (arith, le)) (omega (arith, beyond)))

tally_hit-seq : (x : Hit) (hs : List Hit) → tally (is_hit x) hs ≤ tally (has_seq x.seq) hs
tally_hit-seq x [] = omega arith
tally_hit-seq x (h ∷ hs) = ground (arith, tally_hit-seq x hs)

-- A hit that was numbered is the one of its number.
hit_at-Numbered :
    (x : Hit) (hs : List Hit)
    → Numbered hs
    → length hs ≤ 2 ^ 64
    → 0 < tally (is_hit x) hs
    → hit_at hs x.seq ≡ x
hit_at-Numbered x [] num le there = absurd (omega (arith, there))
hit_at-Numbered x (h ∷ hs) num le there = ground (
  arith,
  there,
  num.0,
  hit_at-Numbered x hs num.1 (omega (arith, le)),
  tally_hit-seq x hs,
  tally_beyond x.seq hs num.1 (omega (arith, le)),
)

at_least : (k n : ℕ) → ltb k n ≡ false → n ≤ k
at_least k n e = ground (arith, e)

-- The results in the order in which they were received.
abbrev pub in_order : List Hit → List Hit → List Hit
in_order [] later = later
in_order (h ∷ hs) later = in_order hs (h ∷ later)

abbrev pub received : State → List Hit
received s = in_order s.delivered []

tally-in_order :
    (p : Hit → Bool) (hs later : List Hit)
    → tally p (in_order hs later) ≡ tally p hs + tally p later
tally-in_order p [] later = omega arith
tally-in_order p (h ∷ hs) later = omega (arith, tally-in_order p hs (h ∷ later))

abbrev numbers : List Hit → List ℕ
numbers = map (λ h. h.seq)

has-numbers : (k : ℕ) (hs : List Hit) → has k (numbers hs) ≡ true → 0 < tally (has_seq k) hs
has-numbers k [] e = absurd cc
has-numbers k (h ∷ hs) e = ground (arith, e, has-numbers k hs)

numbers-has : (k : ℕ) (hs : List Hit) → 0 < tally (has_seq k) hs → has k (numbers hs) ≡ true
numbers-has k [] lt = absurd (omega (arith, lt))
numbers-has k (h ∷ hs) lt = ground (arith, lt, numbers-has k hs)

numbers-Once :
    (hs : List Hit) (done : List ℕ)
    → ((k : ℕ) → tally (has_seq k) hs + (if has k done then 1 else 0) ≤ 1)
    → Once (numbers hs) done
numbers-Once [] done once = tt
numbers-Once (h ∷ hs) done once =
    (ground (arith, once h.seq), numbers-Once hs (h.seq ∷ done) (λ k. ground (arith, once k)))

-- Every element of a list is one of another that has it as often.
members :
    (xs ys : List Hit)
    → ((x : Hit) → tally (is_hit x) xs ≤ tally (is_hit x) ys)
    → All (λ x. 0 < tally (is_hit x) ys) xs
members [] ys le = tt
members (x ∷ xs) ys le = (ground (arith, le x), members xs ys (λ y. omega (arith, le y)))

-- The results are those of their numbers.
module _ (response : Hit → Result) (begun : List Hit) (num : Numbered begun)
    (few : length begun ≤ 2 ^ 64) where
  map-numbers :
      (hs : List Hit)
      → All (λ x. 0 < tally (is_hit x) begun) hs
      → map (λ k. response (hit_at begun k)) (numbers hs) ≡ map response hs
  map-numbers [] all = refl
  map-numbers (x ∷ hs) all =
      ap (λ h. response h ∷ map (λ k. response (hit_at begun k)) (numbers hs))
        (hit_at-Numbered x begun num few all.0)
      ∙ ap (λ rs. response x ∷ rs) (map-numbers hs all.1)

-- What the result of a hit keeps of it, in an attack of this name.
pub record IsResponse (name : Text) (response : Hit → Result) : Type 0 where
  pub seq_same : (h : Hit) → (response h).seq ≡ h.seq
  pub time_same : (h : Hit) → (response h).timestamp ≡ pos h.timestamp
  pub attack_same : (h : Hit) → (response h).attack ≡ name

module _ (fl : Float64) (tsz : Plot.Compressor (fl.F)) (label : Result → Text) (name : Text)
    (response : Hit → Result) (kept : IsResponse name response) where
  begun-IsAttack :
      (now : ℕ) (begun : List Hit)
      → Ordered now begun
      → now < 2 ^ 63
      → IsAttack fl tsz label (λ k. response (hit_at begun k))
  begun-IsAttack now begun o early = record {
    numbered = λ k. kept.seq_same (hit_at begun k) ∙ hit_at-seq begun k;
    named = λ k. kept.attack_same (hit_at begun k) ∙ sym (kept.attack_same (hit_at begun 0));
    ordered = λ k.
        rw (kept.time_same (hit_at begun k), kept.time_same (hit_at begun (suc k)))
          (omega (arith, hit_at-Ordered now begun k o));
    near = λ k.
        rw (kept.time_same (hit_at begun 0), kept.time_same (hit_at begun k))
          (omega (arith, early, hit_at-below now begun k o));
  }

  module _ (c : Config) (es : List Event) {s : State} (few_workers : c.max_workers < 2 ^ 64)
      (ran : run c (start c) es ≡ some s) (over : s.phase ≡ finished)
      (few : length s.begun < 2 ^ 64) (early : s.now < 2 ^ 63) where
    -- Every hit is received as often as it was numbered.
    received-begun : (p : Hit → Bool) → tally p (received s) ≡ tally p s.begun
    received-begun p =
        let nothing : tally p s.pending ≡ 0 =
          rw ((finished_delivers_all c es few_workers ran over).2) refl in
        omega (arith, nothing, tally-in_order p s.delivered [], (run-InSequence c es ran).tallied p)

    received_once : (k : ℕ) → tally (has_seq k) (received s) ≤ 1
    received_once k = elim (Bool-cases (ltb k (length s.begun))) [
      | inl e ↦
          let once =
            finished_each_once c es k few_workers ran over (omega (arith, few))
              (ltb→lt k (length s.begun) e) in
          omega (arith, once, tally-in_order (has_seq k) s.delivered [])
      | inr e ↦ omega (
        arith,
        received-begun (has_seq k),
        tally_beyond k s.begun (run-InSequence c es ran).numbered (omega (arith, few))
            (at_least k (length s.begun) e),
      )
    ]

    received-below : (k : ℕ) → has k (numbers (received s)) ≡ true → k < length s.begun
    received-below k there = elim (Bool-cases (ltb k (length s.begun))) [
      | inl e ↦ ltb→lt k (length s.begun) e
      | inr e ↦ absurd (
          omega (
            arith,
            has-numbers k (received s) there,
            received-begun (has_seq k),
            tally_beyond k s.begun (run-InSequence c es ran).numbered (omega (arith, few))
                (at_least k (length s.begun) e),
          ))
    ]

    received-all : (k : ℕ) → k < length s.begun → has k (numbers (received s)) ≡ true
    received-all k lt = numbers-has k (received s) (
        omega (
          arith,
          finished_each_once c es k few_workers ran over (omega (arith, few)) lt,
          tally-in_order (has_seq k) s.delivered [],
        ))

    received-IsUpTo : IsUpTo (length s.begun) (numbers (received s))
    received-IsUpTo = record {
      once = numbers-Once (received s) [] (λ k. omega (arith, received_once k));
      below = received-below;
      all = received-all;
    }

    -- The results of an attack of fewer than 2^64 hits in fewer than 2^63 nanoseconds since the epoch that
    -- has closed its results, added to a plot in the order in which they were received, with whatever
    -- else each result holds: the plot takes them all without an error, none stays in its buffer, and
    -- the series of each label shows the hits of this label in the order of their numbers.
    pub received-IsPlotted :
        let begun = s.begun in
        (ls : Plot.LabeledSeries fl tsz) × (Plot.add_all fl tsz label
            (map response (received s))
            (Plot.new_labeled_series fl tsz)
          ≡ (ls, none))
        × (ls.seq ≡ length begun)
        × ((k : ℕ) → lookup k ls.buf ≡ none)
        × ((j : ℕ)
            → j < length begun
            → lookup (label (response (hit_at begun j))) ls.series
              ≡ some (
                  shown fl tsz label
                    (λ k. response (hit_at begun k))
                    (label (response (hit_at begun j)))
                    (length begun)))
    received-IsPlotted =
        let hits : ℕ → Result = λ k. response (hit_at s.begun k) in
        let q = run-InSequence c es ran in
        let (ls, added, at_n, empty, series) =
          add_all-ForgetsOrder fl tsz label hits (begun-IsAttack s.now s.begun q.ordered early)
            (length s.begun) (numbers (received s)) received-IsUpTo few in
        (
          ls,
          ap (λ rs. Plot.add_all fl tsz label rs (Plot.new_labeled_series fl tsz))
                (sym (
                  map-numbers response s.begun q.numbered (omega (arith, few)) (received s)
                    (members (received s) s.begun (λ x. omega (arith, received-begun (is_hit x))))))
              ∙ added,
          at_n,
          empty,
          series,
        )
