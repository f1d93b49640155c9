-- ===== src/Plot/Orders.antt =====
-- lib/plot/plot.go: the results of an attack give the same plot in whatever order they are added.
use vegeta.Prelude.{
  ℕ, ◌+◌, ◌^◌, ◌<◌, ◌≡◌, refl, sym, subst, true, false, ◌||◌, none, some, List, [], ◌∷◌, map, arith,
}
use vegeta.Prelude.Text.{Text, text_key}
use vegeta.Prelude.Map.{nat_eq, lookup}
use vegeta.Float.{Float64}
use vegeta.Results.{Result}
use vegeta.Plot
use vegeta.Plot.View.{has, IsAttack, IsView, shown, has_label-has}
use vegeta.Plot.Reorder.{add-IsView}

-- No number comes twice, nor is it one of those that are done.
abbrev pub Once : List ℕ → List ℕ → Type 0
Once [] done = Unit
Once (k ∷ ks) done = (has k done ≡ false) × Once ks (k ∷ done)

-- The numbers that are done after `ks`.
abbrev pub and_then : List ℕ → List ℕ → List ℕ
and_then [] done = done
and_then (k ∷ ks) done = and_then ks (k ∷ done)

has-and_then : (j : ℕ) (ks done : List ℕ) → has j (and_then ks done) ≡ (has j ks || has j done)
has-and_then j [] done = refl
has-and_then j (k ∷ ks) done = ground (arith, has-and_then j ks (k ∷ done))

-- The numbers are those below `n`.
pub record IsUpTo (n : ℕ) (ks : List ℕ) : Type 0 where
  pub once : Once ks []
  pub below : (k : ℕ) → has k ks ≡ true → k < n
  pub all : (k : ℕ) → k < n → has k ks ≡ true

module _ (fl : Float64) (tsz : Plot.Compressor (fl.F)) (label : Result → Text)
    (hits : ℕ → Result) where
  new-IsView : IsView fl tsz label hits [] (Plot.new_labeled_series fl tsz)
  unfolding lookup
  new-IsView = record {
    is_open = record {
      received = λ k h. absurd (omega (arith, h));
      buffered = λ k. refl;
      emitted = λ l. refl;
      small = λ k h. absurd (cc h);
    };
    began = λ h. absurd (omega (arith, h));
    waiting = refl;
  }

  -- The view of all of the first `n` results.
  seq-whole :
      (n : ℕ) (ks : List ℕ) (ls : Plot.LabeledSeries fl tsz)
      → IsUpTo n ks
      → IsView fl tsz label hits (and_then ks []) ls
      → ls.seq ≡ n
  seq-whole n ks ls up_to view = ground (
    arith,
    up_to.all ls.seq,
    view.waiting,
    view.is_open.received n,
    up_to.below n,
    has-and_then ls.seq ks [],
    has-and_then n ks [],
  )

  buf-whole :
      (n : ℕ) (ks : List ℕ) (ls : Plot.LabeledSeries fl tsz)
      → IsUpTo n ks
      → IsView fl tsz label hits (and_then ks []) ls
      → (k : ℕ) → lookup k ls.buf ≡ none
  buf-whole n ks ls up_to view k =
      rw (view.is_open.buffered k)
        (ground (arith, up_to.below k, has-and_then k ks [], seq-whole n ks ls up_to view))

  module _ (is_attack : IsAttack fl tsz label hits) where
    add_all-from :
        (ks done : List ℕ) (ls : Plot.LabeledSeries fl tsz)
        → IsView fl tsz label hits done ls
        → Once ks done
        → ((k : ℕ) → has k ks ≡ true → k + 1 < 2 ^ 64)
        → (ls1 : Plot.LabeledSeries fl tsz) × (Plot.add_all fl tsz label (map hits ks) ls
            ≡ (ls1, none))
          × IsView fl tsz label hits (and_then ks done) ls1
    unfolding Plot.add_all
    add_all-from [] done ls view once small = (ls, refl, view)
    add_all-from (k ∷ ks) done ls view (fresh, once) small =
        let (ls1, added, view1) =
          add-IsView fl tsz label hits is_attack done k ls view fresh (small k (ground arith)) in
        let (ls2, rest, view2) =
          add_all-from ks (k ∷ done) ls1 view1 once (λ j h. small j (ground (arith, h))) in
        (
          ls2,
          subst
              (λ x.
                (elim (x.1) [
                  | none ↦ Plot.add_all fl tsz label (map hits ks) x.0
                  | some e ↦ (x.0, some e)
                ])
                ≡ (ls2, none))
              (sym added) rest,
          view2,
        )

    -- Results of one attack that are added in any order, each once, give no error. The plot then shows
    -- every result before the first one that is missing, under its label and in the order of the
    -- sequence numbers, and the buffer holds the results behind it.
    pub add_all-IsView :
        (ks : List ℕ)
        → Once ks []
        → ((k : ℕ) → has k ks ≡ true → k + 1 < 2 ^ 64)
        → (ls1 : Plot.LabeledSeries fl tsz) × (Plot.add_all fl tsz label
              (map hits ks)
              (Plot.new_labeled_series fl tsz)
            ≡ (ls1, none))
          × IsView fl tsz label hits (and_then ks []) ls1
    add_all-IsView ks once small =
        add_all-from ks [] (Plot.new_labeled_series fl tsz) new-IsView once small

    -- The first `n` results of one attack, which are numbered from 0, have timestamps that rise with
    -- the numbers, all within 292 years, and are fewer than 2^64, give no error in whatever order they
    -- are added, each once. Nothing is left in the buffer, and the series of the label of each result
    -- holds the results with that label in the order of their sequence numbers.
    pub add_all-ForgetsOrder :
        (n : ℕ) (ks : List ℕ)
        → IsUpTo n ks
        → n < 2 ^ 64
        → (ls1 : Plot.LabeledSeries fl tsz) × (Plot.add_all fl tsz label
              (map hits ks)
              (Plot.new_labeled_series fl tsz)
            ≡ (ls1, none))
          × (ls1.seq ≡ n)
          × ((k : ℕ) → lookup k ls1.buf ≡ none)
          × ((j : ℕ)
              → j < n
              → lookup (label (hits j)) ls1.series
                ≡ some (shown fl tsz label hits (label (hits j)) n))
    add_all-ForgetsOrder n ks up_to small =
        let (ls1, added, view) =
          add_all-IsView ks up_to.once (λ k h. omega (arith, up_to.below k h, small)) in
        let at_n = seq-whole n ks ls1 up_to view in
        (
          ls1,
          added,
          at_n,
          buf-whole n ks ls1 up_to view,
          λ j h.
              rw
                (
                  view.is_open.emitted (label (hits j)),
                  has_label-has fl tsz label hits j (and_then ks [])
                      (ground (arith, has-and_then j ks [], up_to.all j h)),
                  at_n,
                )
                refl,
        )
