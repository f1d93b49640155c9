-- ===== src/Lttb/Tests.antt =====
-- Four of eight points.
use vegeta.Prelude.{ℕ, zero, suc, ◌*◌, ◌+◌, ◌<◌, ◌≡◌, refl, List, [], ◌∷◌, length, arith}
use vegeta.Prelude.Int.{pos, ◌+ℤ◌, ◌-ℤ◌, ◌*ℤ◌, ◌/ℤ◌, int64, uint64, signed64}
use vegeta.Prelude.Sublist.{◌⊑◌}
use vegeta.Prelude.Text.{Text}
use vegeta.Outcome.{ok}
use vegeta.Float.{second}
use vegeta.Float.Sample.{fixed}
use vegeta.Lttb
use vegeta.Lttb.Samples.{IsSpaced, list_iter}
use vegeta.Lttb.Threshold.{downsample-⊑}

point : ℕ → ℕ → Lttb.Point fixed
unfolding fixed
point x y = record { x = pos (x * second); y = pos (y * second) }

abbrev points : List (Lttb.Point fixed)
points = point 1 5 ∷ point 2 1 ∷ point 3 9 ∷ point 4 2 ∷ point 5 2 ∷ point 6 3 ∷ point 7 8 ∷ []

sampled :
    Lttb.downsample fixed {E = Text} (list_iter fixed) (pos 8) (pos 4) (point 0 4 ∷ points)
    ≡ ok (point 0 4 ∷ point 3 9 ∷ point 4 2 ∷ point 7 8 ∷ [])
unfolding fixed point Lttb.downsample Lttb.in_buckets Lttb.from Lttb.rounds Lttb.sample Lttb.average
    Lttb.sum_points Lttb.largest_index int64 uint64 signed64 ◌+ℤ◌ ◌-ℤ◌ ◌*ℤ◌ ◌/ℤ◌
sampled = refl

bounds :
    (i : ℕ)
    → suc i < 4
    → Lttb.bound fixed (Lttb.bucket_size fixed (pos 8) (pos 4)) (suc i) ≡ pos (suc i * 3 + 1)
unfolding fixed int64 uint64 signed64 ◌+ℤ◌ ◌-ℤ◌ ◌*ℤ◌ ◌/ℤ◌
bounds zero h = refl
bounds (suc zero) h = refl
bounds (suc (suc zero)) h = refl
bounds (suc (suc (suc i))) h = absurd (omega (arith, h))

spaced : IsSpaced fixed (Lttb.bucket_size fixed (pos 8) (pos 4)) 8 4
unfolding fixed int64 uint64 signed64 ◌+ℤ◌ ◌-ℤ◌ ◌*ℤ◌ ◌/ℤ◌
spaced = record {
  at = λ i. i * 3 + 1;
  bounds = bounds;
  first = refl;
  two = omega arith;
  rising = λ i h. omega arith;
  inside = λ i h. omega (arith, h);
  machine = λ i h. omega (arith, h);
}

downsample-⊑_example :
    (samples : List (Lttb.Point fixed)) × (Lttb.downsample fixed {E = Text}
        (list_iter fixed)
        (pos 8)
        (pos 4)
        (point 0 4 ∷ points)
      ≡ ok (point 0 4 ∷ samples))
    × (length (point 0 4 ∷ samples) ≡ 4)
    × (samples ⊑ points)
downsample-⊑_example =
    downsample-⊑ fixed {E = Text} 4 (point 0 4) points (omega arith) (omega arith) spaced
