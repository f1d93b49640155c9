-- ===== src/Lttb/Samples.antt =====
-- lib/lttb/lttb.go: what is sampled from a list of points.
use vegeta.Prelude.{
  ℕ, suc, zero, ◌+◌, ◌-◌, ◌^◌, ◌<◌, ◌≤◌, ◌≡◌, refl, ap, subst, ◌∙◌, inl, inr, List, [], ◌∷◌, ◌++◌,
  length, get_elem?-below, take, drop, arith, Bool-cases,
}
use vegeta.Prelude.Int.{ℤ, pos, pos_part, int64, uint64, signed64, ◌-ℤ◌}
use vegeta.Prelude.Sublist.{◌⊑◌, ⊑_refl, ⊑-append, ⊑-get_elem?, take-drop}
use vegeta.Outcome.{Fallible, ok, ◌>>=◌}
use vegeta.Float.{Float64}
use vegeta.Lttb

pub length-take :
    {A : Type 0} (n : ℕ) (xs : List A) → 0 < n → 0 < length xs → 0 < length (take n xs)
length-take zero xs hn hx = hn
length-take (suc n) [] hn hx = hx
length-take (suc n) (x ∷ xs) hn hx = omega arith

pub length-drop : {A : Type 0} (n : ℕ) (xs : List A) → length (drop n xs) ≡ length xs - n
length-drop zero xs = omega arith
length-drop (suc n) [] = omega arith
length-drop (suc n) (x ∷ xs) = omega (arith, length-drop n xs)

int64-minus : (a b : ℕ) → b < a → a < 2 ^ 63 → int64 (pos a -ℤ pos b) ≡ pos (a - b)
unfolding int64 ◌-ℤ◌ uint64 signed64
int64-minus a b lt small = ground (arith, lt, small)

module _ (fl : Float64) where
  open fl use {F, add, lt, of_uint, to_int64}

  -- The iterator over a list of points: it gives the next ones, as many as there are.
  abbrev pub list_iter :
      {E : Type 0}
      → ℤ
      → List (Lttb.Point fl)
      → Fallible E (List (Lttb.Point fl) × List (Lttb.Point fl))
  list_iter n ps = ok (take (pos_part n) ps, drop (pos_part n) ps)

  -- The index that the loop ends with is one of the bucket or the one it began with.
  largest_index-below :
      (a c : Lttb.Point fl) (ps : List (Lttb.Point fl)) (i : ℕ) (largest : F) (index : ℕ)
      → index < i + length ps
      → Lttb.largest_index fl a c ps i largest index < i + length ps
  unfolding Lttb.largest_index
  largest_index-below a c [] i largest index h = h
  largest_index-below a c (p ∷ ps) i largest index h =
      elim (Bool-cases (lt largest (Lttb.area fl a c p))) [
        | inl e ↦
            rw e (
              omega
                (arith, largest_index-below a c ps (suc i) (Lttb.area fl a c p) i (omega arith)))
        | inr e ↦
            rw e
              (omega (arith, largest_index-below a c ps (suc i) largest index (omega (arith, h))))
      ]

  -- Of a bucket with points, one is sampled.
  sample-⊑ :
      {E : Type 0} (a : Lttb.Point fl) (current next : List (Lttb.Point fl))
      → 0 < length current
      → (b : Lttb.Point fl) × (Lttb.sample fl {E = E} a current next ≡ ok b) × ((b ∷ []) ⊑ current)
  unfolding Lttb.sample
  sample-⊑ a current next some_points =
      let index = Lttb.largest_index fl a (Lttb.average fl next) current 0 (of_uint 0) 0 in
      let (b, at) = get_elem?-below current index (
        omega (
          arith,
          largest_index-below a (Lttb.average fl next) current 0 (of_uint 0) 0
              (omega (arith, some_points)),
        )) in
      (b, rw (Lttb.sample, at) refl, ⊑-get_elem? current index b at)

  -- What rounding leaves of the bucket boundaries: they rise from the first, which is 2 at least, and
  -- all but the last lie within the points.
  pub record IsSpaced (size : F) (count threshold : ℕ) : Type 0 where
    pub at : ℕ → ℕ
    pub bounds : (i : ℕ) → suc i < threshold → Lttb.bound fl size (suc i) ≡ pos (at (suc i))
    pub first : to_int64 (add (of_uint 1) size) ≡ pos (at 1)
    pub two : 2 ≤ at 1
    pub rising : (i : ℕ) → suc (suc i) < threshold → at (suc i) < at (suc (suc i))
    pub inside : (i : ℕ) → suc (suc i) < threshold → at (suc i) < count
    pub machine : (i : ℕ) → suc i < threshold → at (suc i) < 2 ^ 63

  module _ {E : Type 0} where
    abbrev pub pull :
        ℤ → List (Lttb.Point fl) → Fallible E (List (Lttb.Point fl) × List (Lttb.Point fl))
    pull = list_iter

    -- A pull of the loop takes the points between two boundaries.
    from-pull :
        (size : F) (count threshold : ℕ)
        → (spaced : IsSpaced size count threshold) → (i : ℕ) (xs : List (Lttb.Point fl))
        → suc (suc i) < threshold
        → Lttb.from fl pull
            (int64 (Lttb.bound fl size (suc (suc i)) -ℤ Lttb.bound fl size (suc i)))
            xs
          ≡ ok (
            take (spaced.at (suc (suc i)) - spaced.at (suc i)) xs,
            drop (spaced.at (suc (suc i)) - spaced.at (suc i)) xs,
          )
    unfolding Lttb.from
    from-pull size count threshold spaced i xs inside =
        ap (λ n. Lttb.from fl pull n xs)
          (ap (λ n. int64 (n -ℤ Lttb.bound fl size (suc i))) (spaced.bounds (suc i) inside)
            ∙ ap (λ n. int64 (pos (spaced.at (suc (suc i))) -ℤ n))
                (spaced.bounds i (omega (arith, inside)))
            ∙ int64-minus (spaced.at (suc (suc i))) (spaced.at (suc i)) (spaced.rising i inside)
                (spaced.machine (suc i) inside))

    rounds-next :
        (size : F) (left i : ℕ) (a b : Lttb.Point fl) (current next xs ys : List (Lttb.Point fl))
        (done : List (Lttb.Point fl) × List (Lttb.Point fl) × List (Lttb.Point fl))
        → Lttb.from fl pull
            (int64 (Lttb.bound fl size (suc (suc i)) -ℤ Lttb.bound fl size (suc i)))
            xs
          ≡ ok (next, ys)
        → Lttb.sample fl {E = E} a current next ≡ ok b
        → Lttb.rounds fl pull size left (suc i) b next ys ≡ ok done
        → Lttb.rounds fl pull size (suc left) i a current xs ≡ ok (b ∷ done.0, done.1, done.2)
    unfolding Lttb.rounds
    rounds-next size left i a b current next xs ys done pulled sampled looped =
        ap
          (λ x. x >>= λ p. Lttb.sample fl a current p.0 >>= λ q.
            Lttb.rounds fl pull size left (suc i) q p.0 p.1 >>= λ r. ok (q ∷ r.0, r.1, r.2))
          pulled
        ∙ ap
            (λ x. x >>= λ q.
              Lttb.rounds fl pull size left (suc i) q next ys >>= λ r. ok (q ∷ r.0, r.1, r.2))
            sampled
        ∙ ap (λ x. x >>= λ r. ok (b ∷ r.0, r.1, r.2)) looped

    -- The buckets of the loop are parts of the list, one behind the other, and a point is sampled of each.
    pub rounds-⊑ :
        (size : F) (count threshold : ℕ)
        → (spaced : IsSpaced size count threshold)
        → (left i : ℕ) (a : Lttb.Point fl) (current xs : List (Lttb.Point fl))
        → i + left + 2 ≡ threshold
        → 0 < length current
        → length xs ≡ count - spaced.at (suc i)
        → (samples last rest : List (Lttb.Point fl)) × (Lttb.rounds fl pull size left i a current xs
            ≡ ok (samples, last, rest))
          × (length samples ≡ left)
          × (0 < length last)
          × ((samples ++ (last ++ rest)) ⊑ (current ++ xs))
    unfolding Lttb.rounds
    rounds-⊑ size count threshold spaced zero i a current xs end some_points len =
        ([], current, xs, refl, refl, some_points, ⊑_refl (current ++ xs))
    rounds-⊑ size count threshold spaced (suc left) i a current xs end some_points len =
        let inside : suc (suc i) < threshold = omega (arith, end) in
        let d = spaced.at (suc (suc i)) - spaced.at (suc i) in
        let (b, sampled, one) = sample-⊑ {E = E} a current (take d xs) some_points in
        let (samples, last, rest, looped, n, some_last, sub) =
          rounds-⊑ size count threshold spaced left (suc i) b (take d xs) (drop d xs)
            (omega (arith, end))
            (length-take d xs (omega (arith, spaced.rising i inside))
              (omega (arith, len, spaced.inside i inside)))
            (omega (arith, length-drop d xs, len, spaced.rising i inside)) in
        (
          b ∷ samples,
          last,
          rest,
          rounds-next size left i a b current (take d xs) xs (drop d xs) (samples, last, rest)
              (from-pull size count threshold spaced i xs inside) sampled looped,
          ap suc n,
          some_last,
          subst (λ ys. (b ∷ samples ++ (last ++ rest)) ⊑ (current ++ ys)) (take-drop d xs)
              (⊑-append one sub),
        )
