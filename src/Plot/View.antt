-- ===== src/Plot/View.antt =====
-- lib/plot/plot.go, `labeledSeries`: what a plot should hold of an attack whose results come in any order.
use vegeta.Prelude.{
  ℕ, suc, zero, ◌+◌, ◌-◌, ◌^◌, ◌<◌, ◌≡◌, refl, inl, inr, Bool, true, false, ◌&&◌, ◌||◌, none, some,
  List, [], ◌∷◌, if◌then◌else◌, leb, ◌==◌, arith, ==_iff, Bool-cases,
}
use vegeta.Prelude.Int.{ℤ, pos, pos_part, neg_part, ◌-ℤ◌, ◌≤ℤ◌}
use vegeta.Prelude.Text.{Text, text_key, text_eq, text_eq_iff}
use vegeta.Prelude.Map.{nat_eq, lookup}
use vegeta.Float.{Float64}
use vegeta.Results.{Result}
use vegeta.Plot

-- The distance of an instant from an earlier one.
abbrev pub since : ℤ → ℤ → ℕ
since u t = (pos_part t + neg_part u) - (pos_part u + neg_part t)

pub sub_time-since : (u t : ℤ) → u ≤ℤ t → since u t < 2 ^ 63 → Plot.sub_time t u ≡ pos (since u t)
unfolding Plot.sub_time ◌-ℤ◌
sub_time-since u t later near = ground arith

-- Whether a sequence number is one of a list.
abbrev pub has : ℕ → List ℕ → Bool
has k [] = false
has k (j ∷ ks) = j == k || has k ks

module _ (fl : Float64) (tsz : Plot.Compressor (fl.F)) (label : Result → Text)
    (hits : ℕ → Result) where
  abbrev pub start : ℤ
  start = (hits 0).timestamp

  -- The results of one attack: numbered from 0, in the order of their timestamps, within 292 years.
  pub record IsAttack : Type 0 where
    pub numbered : (k : ℕ) → (hits k).seq ≡ k
    pub named : (k : ℕ) → (hits k).attack ≡ (hits 0).attack
    pub ordered : (k : ℕ) → (hits k).timestamp ≤ℤ (hits (suc k)).timestamp
    pub near : (k : ℕ) → since start (hits k).timestamp < 2 ^ 63

  abbrev pub point : ℕ → Plot.Point fl tsz
  point k = Plot.point_of fl tsz (label (hits k)) (hits k)

  abbrev pub appended : ℕ → Plot.TimeSeries fl tsz → Plot.TimeSeries fl tsz
  appended k s = record s {
    points = tsz.push (Plot.millis fl tsz start (hits k).timestamp) (point k).v s.points;
    prev = Plot.millis fl tsz start (hits k).timestamp;
    len = s.len + 1;
  }

  -- What a plot shows of the first `n` hits under a label: the points of those that have the label, in order.
  abbrev pub shown : Text → ℕ → Plot.TimeSeries fl tsz
  shown l zero = Plot.new_time_series fl tsz (hits 0).attack l
  shown l (suc n) = if text_eq (label (hits n)) l then appended n (shown l n) else shown l n

  abbrev pub has_label : Text → List ℕ → Bool
  has_label l [] = false
  has_label l (k ∷ ks) = text_eq (label (hits k)) l || has_label l ks

  -- How the state stands to the numbers `ks` of the results so far, within the loop.
  pub record IsOpen (ks : List ℕ) (ls : Plot.LabeledSeries fl tsz) : Type 0 where
    pub received : (k : ℕ) → k < ls.seq → has k ks ≡ true
    pub buffered :
        (k : ℕ) → lookup k ls.buf ≡ (if has k ks && leb ls.seq k then some (point k) else none)
    pub emitted :
        (l : Text) → lookup l ls.series ≡ (if has_label l ks then some (shown l ls.seq) else none)
    pub small : (k : ℕ) → has k ks ≡ true → k + 1 < 2 ^ 64

  -- The state is what it should be: every result before the first one that is missing is shown, in
  -- order, and the results behind it are in the buffer.
  pub record IsView (ks : List ℕ) (ls : Plot.LabeledSeries fl tsz) : Type 0 where
    pub is_open : IsOpen ks ls
    pub began : 0 < ls.seq → ls.began ≡ start
    pub waiting : has ls.seq ks ≡ false

  pub has_label-has : (k : ℕ) (ks : List ℕ) → has k ks ≡ true → has_label (label (hits k)) ks ≡ true
  has_label-has k [] e = absurd cc
  has_label-has k (j ∷ ks) e = elim (Bool-cases (j == k)) [
    | inl same ↦
        rw ((==_iff j k).0 same, (text_eq_iff (label (hits k)) (label (hits k))).1 refl) refl
    | inr other ↦ ground (arith, e, other, has_label-has k ks)
  ]
