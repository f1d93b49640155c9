-- ===== src/Histogram/Buckets.antt =====
-- Which bucket a latency is counted in.
use mathlib.Core.Path.{subst}
use vegeta.Prelude.{
  ℕ, zero, suc, ◌+◌, ◌%◌, ◌^◌, ◌<◌, ◌≡◌, refl, ◌⊎◌, ◌≢◌, ◌↔◌, inl, inr, true, false, Option, some,
  List, [], ◌∷◌, ◌++◌, ◌==◌, length, get_elem?, get_elem?-below, set, arith, length-replicate,
  Option-cases, Bool-cases, ==_iff,
}
use vegeta.Prelude.Int.{ℤ, pos, ltb_ℤ, ◌≤ℤ◌, ◌<ℤ◌}
use vegeta.Prelude.Text.{Text, trim_space, split}
use vegeta.Results.{Result}
use vegeta.Histogram.{
  Histogram, find_bucket, increment, counts_for, add, add_parts, check_buckets, unmarshal_text,
  but_last, BucketsError,
}
use vegeta.Outcome.{returns, panics, Fallible, ok, err}

abbrev pub sum : List ℕ → ℕ
sum [] = 0
sum (n ∷ ns) = n + sum ns

-- The latency lies in the bucket at the place: at or above its lower bound, and below the next one
-- unless the bucket is the last.
abbrev pub Holds : List ℤ → ℕ → ℤ → Type 0
Holds [] i latency = ⊥
Holds (b ∷ []) zero latency = b ≤ℤ latency
Holds (b ∷ []) (suc i) latency = ⊥
Holds (b ∷ next ∷ bs) zero latency = (b ≤ℤ latency) × (latency <ℤ next)
Holds (b ∷ next ∷ bs) (suc i) latency = Holds (next ∷ bs) i latency

abbrev pub StartsBy : List ℤ → ℤ → Type 0
StartsBy [] latency = ⊥
StartsBy (b ∷ bs) latency = b ≤ℤ latency

pub find_bucket-Holds :
    (bs : List ℤ) (latency : ℤ) → StartsBy bs latency → Holds bs (find_bucket bs latency) latency
unfolding find_bucket
find_bucket-Holds [] latency h = absurd h
find_bucket-Holds (b ∷ []) latency h = h
find_bucket-Holds (b ∷ next ∷ bs) latency h = ground (arith, find_bucket-Holds (next ∷ bs) latency)

pub find_bucket-lt : (bs : List ℤ) (latency : ℤ) → bs ≢ [] → find_bucket bs latency < length bs
unfolding find_bucket
find_bucket-lt [] latency h = absurd (h refl)
find_bucket-lt (b ∷ []) latency h = omega arith
find_bucket-lt (b ∷ next ∷ bs) latency h = ground (arith, find_bucket-lt (next ∷ bs) latency)

length-counts_for : (h : Histogram) → length (counts_for h) ≡ length h.buckets
unfolding counts_for
length-counts_for h = elim (Bool-cases (length h.counts == length h.buckets)) [
  | inl same ↦ rw same ((==_iff _ _).0 same)
  | inr fresh ↦ rw fresh (length-replicate (length h.buckets) 0)
]

-- `Add` with buckets: one count goes up by one, at the place that the loop finds.
pub add_lem :
    (h : Histogram) (r : Result)
    → h.buckets ≢ []
    → (n : ℕ) × (get_elem? (counts_for h) (find_bucket h.buckets r.latency) ≡ some n)
      × (add h r
          ≡ returns (record h {
            counts = set (counts_for h) (find_bucket h.buckets r.latency) ((n + 1) % 2 ^ 64);
            total = (h.total + 1) % 2 ^ 64;
          }))
unfolding add increment
add_lem h r some_bucket =
    let (n, found) =
      get_elem?-below (counts_for h) (find_bucket h.buckets r.latency)
        (rw (length-counts_for h) (find_bucket-lt h.buckets r.latency some_bucket)) in
    (n, found, ground (arith, found))

not_empty-add : (h : Histogram) (r : Result) → h.buckets ≢ [] → add h r ≢ panics
not_empty-add h r some_bucket e = let added = (add_lem h r some_bucket).2 in ground (arith, added)

is_nil : (bs : List ℤ) → (bs ≡ []) ⊎ (bs ≢ [])
is_nil [] = inl refl
is_nil (b ∷ bs) = inr (λ e. cc)

empty-add : (h : Histogram) (r : Result) → h.buckets ≡ [] → add h r ≡ panics
unfolding add increment counts_for find_bucket
empty-add h r e = ground (arith, length_zero h.counts)
  where
    length_zero : (ns : List ℕ) → length ns ≡ 0 → ns ≡ []
    length_zero [] e = refl
    length_zero (n ∷ ns) e = absurd (omega arith)

-- `Add` panics exactly on a histogram with no buckets.
pub add-panics : (h : Histogram) (r : Result) → (add h r ≡ panics) ↔ (h.buckets ≡ [])
add-panics h r = (only, empty-add h r)
  where
    only : add h r ≡ panics → h.buckets ≡ []
    only e = elim (is_nil h.buckets) [
      | inl none_left ↦ none_left
      | inr some_left ↦ absurd (not_empty-add h r some_left e)
    ]

-- The counts add up to the total.
pub record IsCounted (h : Histogram) : Type 0 where
  pub one_each : length h.counts ≡ length h.buckets
  pub adds_up : sum h.counts ≡ h.total

StartsBy-append : (bs cs : List ℤ) (l : ℤ) → StartsBy bs l → StartsBy (bs ++ cs) l
StartsBy-append [] cs l h = absurd h
StartsBy-append (b ∷ bs) cs l h = h

StartsBy-le : (bs : List ℤ) (k l : ℤ) → k ≤ℤ l → StartsBy bs k → StartsBy bs l
StartsBy-le [] k l le h = h
StartsBy-le (b ∷ bs) k l le h = omega arith

checked :
    (res : Fallible BucketsError (List ℤ)) {bs : List ℤ}
    → check_buckets res ≡ ok bs
    → (res ≡ ok bs) × (bs ≢ [])
unfolding check_buckets
checked (err e) h = absurd (ground arith)
checked (ok []) h = absurd (ground arith)
checked (ok (b ∷ bs)) h = (ground arith, ground arith)

module _ (parse_duration : Text → Option ℤ) where
  later_parts-StartsBy :
      (vs : List Text) (bs : List ℤ) {cs : List ℤ}
      → StartsBy bs (pos 0)
      → add_parts parse_duration false bs vs ≡ ok cs
      → StartsBy cs (pos 0)
  unfolding add_parts
  later_parts-StartsBy [] bs {cs} h e =
      let same : bs ≡ cs = ground arith in subst (λ x. StartsBy x (pos 0)) same h
  later_parts-StartsBy (v ∷ vs) bs h e = elim (Option-cases (parse_duration (trim_space v))) [
    | inl bad ↦ absurd (ground arith)
    | inr (d, good) ↦
        later_parts-StartsBy vs (bs ++ d ∷ []) (StartsBy-append bs (d ∷ []) (pos 0) h)
          (ground arith)
  ]

  first_parts-StartsBy :
      (vs : List Text) {cs : List ℤ}
      → cs ≢ []
      → add_parts parse_duration true [] vs ≡ ok cs
      → StartsBy cs (pos 0)
  unfolding add_parts
  first_parts-StartsBy [] h e = absurd (ground arith)
  first_parts-StartsBy (v ∷ vs) h e = elim (Option-cases (parse_duration (trim_space v))) [
    | inl bad ↦ absurd (ground arith)
    | inr (d, good) ↦ elim (Bool-cases (ltb_ℤ (pos 0) d)) [
      | inl above ↦ later_parts-StartsBy vs (pos 0 ∷ d ∷ []) (omega arith) (ground arith)
      | inr below ↦ later_parts-StartsBy vs (d ∷ []) (ground arith) (ground arith)
    ]
  ]

  unmarshalled :
      (text : Text) {bs : List ℤ}
      → unmarshal_text parse_duration [] text ≡ ok bs
      → (vs : List Text) × (check_buckets (add_parts parse_duration true [] vs) ≡ ok bs)
  unfolding unmarshal_text
  unmarshalled [] e = absurd (ground arith)
  unmarshalled (c ∷ s) e = (split b',' (but_last s), ground arith)

  -- Buckets that were read from a text into none hold every latency that is not negative.
  pub unmarshal_text-Holds :
      (text : Text) (latency : ℤ) {bs : List ℤ}
      → unmarshal_text parse_duration [] text ≡ ok bs
      → pos 0 ≤ℤ latency
      → Holds bs (find_bucket bs latency) latency
  unmarshal_text-Holds text latency {bs} e h =
      let (vs, parts) = unmarshalled text e in
      let (good, some_bucket) = checked (add_parts parse_duration true [] vs) parts in
      find_bucket-Holds bs latency
        (StartsBy-le bs (pos 0) latency h (first_parts-StartsBy vs some_bucket good))
