-- ===== src/Lttb/Threshold.antt =====
-- lib/lttb/lttb.go: how many points `Downsample` gives, and which.
use vegeta.Prelude.{
  ℕ, suc, ◌-◌, ◌<◌, ◌≤◌, ◌≡◌, refl, ap, subst, ◌∙◌, none, some, List, [], ◌∷◌, ◌++◌, length, take,
  drop, arith, length-append,
}
use vegeta.Prelude.Int.{ℤ, pos, pos_part, int64, ◌-ℤ◌}
use vegeta.Prelude.Sublist.{◌⊑◌, nothing, skip, ⊑_refl, ⊑_trans, ⊑-append, ⊑-take, take-drop}
use vegeta.Outcome.{Fallible, ok, ◌>>=◌}
use vegeta.Float.{Float64}
use vegeta.Lttb
use vegeta.Lttb.Samples.{length-take, length-drop, list_iter, IsSpaced, rounds-⊑}

suc-minus : (n : ℕ) → 2 ≤ n → n ≡ suc (n - 1)
suc-minus n h = omega arith

ends-⊑ :
    {A : Type 0} (samples last rest points ends whole : List A)
    → ends ⊑ (last ++ points)
    → points ⊑ rest
    → (samples ++ (last ++ rest)) ⊑ whole
    → (samples ++ ends) ⊑ whole
ends-⊑ samples last rest points ends whole kept tail sub =
    ⊑_trans (⊑-append (⊑_refl samples) (⊑_trans kept (⊑-append (⊑_refl last) tail))) sub

module _ (fl : Float64) where
  open fl use {F, add, of_uint, to_int64}

  -- The last point of a list with points is one of it.
  last_of-⊑ :
      (ps : List (Lttb.Point fl))
      → 0 < length ps
      → (p : Lttb.Point fl) × (Lttb.last_of fl ps ≡ some p) × ((p ∷ []) ⊑ ps)
  last_of-⊑ [] h = absurd (omega (arith, h))
  last_of-⊑ (p ∷ []) h = (p, refl, ⊑_refl (p ∷ []))
  last_of-⊑ (p ∷ q ∷ ps) h =
      let (r, e, sub) = last_of-⊑ (q ∷ ps) (omega arith) in (r, e, skip p sub)

  with_last-⊑ :
      (samples points current : List (Lttb.Point fl))
      → 0 < length current
      → (ends : List (Lttb.Point fl)) × (Lttb.with_last fl samples points current ≡ samples ++ ends)
        × (length ends ≡ 1)
        × (ends ⊑ (current ++ points))
  with_last-⊑ samples [] current h =
      let (p, e, sub) = last_of-⊑ current h in
      (
        p ∷ [],
        ap (λ o. elim o [ none ↦ samples | some q ↦ samples ++ q ∷ [] ]) e,
        refl,
        ⊑-append sub (nothing []),
      )
  with_last-⊑ samples (q ∷ qs) current h =
      let (p, e, sub) = last_of-⊑ (q ∷ qs) (omega arith) in
      (
        p ∷ [],
        ap (λ o. elim o [ none ↦ samples | some q ↦ samples ++ q ∷ [] ]) e,
        refl,
        ⊑-append (nothing current) sub,
      )

  module _ {E : Type 0} where
    abbrev pull :
        ℤ → List (Lttb.Point fl) → Fallible E (List (Lttb.Point fl) × List (Lttb.Point fl))
    pull = list_iter fl

    in_buckets-ok :
        (count threshold : ℤ) (s : List (Lttb.Point fl)) (p : Lttb.Point fl)
        (current xs : List (Lttb.Point fl))
        (done : List (Lttb.Point fl) × List (Lttb.Point fl) × List (Lttb.Point fl))
        → (Lttb.from fl pull (to_int64 (add (of_uint 1) (Lttb.bucket_size fl count threshold))) s
            >>= λ pulled. Lttb.first_bucket fl pull pulled)
          ≡ ok (p, current, xs)
        → Lttb.rounds fl pull
            (Lttb.bucket_size fl count threshold)
            (pos_part threshold - 2)
            0
            p
            current
            xs
          ≡ ok done
        → (points : List (Lttb.Point fl)) × (Lttb.in_buckets fl pull count threshold s
            ≡ ok (Lttb.with_last fl (p ∷ done.0) points done.1))
          × (points ⊑ done.2)
    unfolding Lttb.in_buckets Lttb.from
    in_buckets-ok count threshold s p current xs done e1 e2 =
        let n = int64 (count -ℤ pos (suc (length done.0))) in
        (
          take (pos_part n) done.2,
          ap
                (λ x. x >>= λ first.
                  Lttb.rounds fl pull (Lttb.bucket_size fl count threshold) (pos_part threshold - 2)
                    0 first.0 first.1 first.2
                  >>= λ d.
                      Lttb.from fl pull (int64 (count -ℤ pos (length (first.0 ∷ d.0)))) d.2
                      >>= λ rest. ok (Lttb.with_last fl (first.0 ∷ d.0) rest.0 d.1))
                e1
              ∙ ap
                  (λ x. x >>= λ d.
                    Lttb.from fl pull (int64 (count -ℤ pos (length (p ∷ d.0)))) d.2 >>= λ rest.
                    ok (Lttb.with_last fl (p ∷ d.0) rest.0 d.1))
                  e2,
          ⊑-take (pos_part n) done.2,
        )

    downsample-in_buckets :
        (count threshold : ℕ) (s : List (Lttb.Point fl))
        → 3 ≤ threshold
        → threshold < count
        → Lttb.downsample fl pull (pos count) (pos threshold) s
          ≡ Lttb.in_buckets fl pull (pos count) (pos threshold) s
    unfolding Lttb.downsample
    downsample-in_buckets count threshold s three small = ground arith

    first_bucket-take :
        (size : F) (count threshold : ℕ) (p : Lttb.Point fl) (ps : List (Lttb.Point fl))
        → (spaced : IsSpaced fl size count threshold)
        → (Lttb.from fl pull (to_int64 (add (of_uint 1) size)) (p ∷ ps) >>= λ pulled.
            Lttb.first_bucket fl pull pulled)
          ≡ ok (p, take (spaced.at 1 - 1) ps, drop (spaced.at 1 - 1) ps)
    unfolding Lttb.from
    first_bucket-take size count threshold p ps spaced =
        ap (λ n. Lttb.from fl pull n (p ∷ ps) >>= λ pulled. Lttb.first_bucket fl pull pulled)
          (spaced.first ∙ ap pos (suc-minus (spaced.at 1) spaced.two))

    -- Of as many points as it is told to expect, more than the threshold, which is 3 or more, and with
    -- bucket boundaries that rise and lie within the points, `Downsample` gives exactly `threshold`
    -- points, without an error or a panic: the first point, and others of the points in their order.
    pub downsample-⊑ :
        (threshold : ℕ) (p : Lttb.Point fl) (ps : List (Lttb.Point fl))
        → 3 ≤ threshold
        → threshold < length (p ∷ ps)
        → IsSpaced fl
            (Lttb.bucket_size fl (pos (length (p ∷ ps))) (pos threshold))
            (length (p ∷ ps))
            threshold
        → (samples : List (Lttb.Point fl)) × (Lttb.downsample fl pull
              (pos (length (p ∷ ps)))
              (pos threshold)
              (p ∷ ps)
            ≡ ok (p ∷ samples))
          × (length (p ∷ samples) ≡ threshold)
          × (samples ⊑ ps)
    downsample-⊑ threshold p ps three small spaced =
        let count = suc (length ps) in
        let size = Lttb.bucket_size fl (pos count) (pos threshold) in
        let current = take (spaced.at 1 - 1) ps in
        let xs = drop (spaced.at 1 - 1) ps in
        let (samples, last, rest, looped, n, some_last, sub) =
          rounds-⊑ fl size count threshold spaced (threshold - 2) 0 p current xs
            (omega (arith, three))
            (length-take (spaced.at 1 - 1) ps (omega (arith, spaced.two))
              (omega (arith, small, three)))
            (omega (arith, length-drop (spaced.at 1 - 1) ps, spaced.two)) in
        let (points, done, tail) =
          in_buckets-ok (pos count) (pos threshold) (p ∷ ps) p current xs (samples, last, rest)
            (first_bucket-take size count threshold p ps spaced) looped in
        let (ends, ended, one, kept) = with_last-⊑ (p ∷ samples) points last some_last in
        (
          samples ++ ends,
          downsample-in_buckets count threshold (p ∷ ps) three small ∙ done ∙ ap ok ended,
          omega (arith, length-append samples ends, one, n, three),
          subst (λ ys. (samples ++ ends) ⊑ ys) (take-drop (spaced.at 1 - 1) ps)
              (ends-⊑ samples last rest points ends (current ++ xs) kept tail sub),
        )
