-- ===== src/Reporters/Ranges.antt =====
-- lib/reporters.go and lib/histogram.go: the range that a row shows for a latency.
use vegeta.Prelude.{inl, inr, ◌&&◌, Option, none, some, List, [], ◌∷◌, arith, Bool-cases}
use vegeta.Prelude.Int.{ℤ, ◌≤ℤ◌, ◌<ℤ◌, leb_ℤ, ltb_ℤ}
use vegeta.Histogram.{find_bucket}
use vegeta.Reporters.{nth}

-- A latency lies within the ends of a row, or the row is that of the last bucket, which goes to `+Inf`.
abbrev pub Within : ℤ → Option (ℤ × Option ℤ) → Type 0
Within latency none = ⊥
Within latency (some (lo, none)) = Unit
Within latency (some (lo, some hi)) = (lo ≤ℤ latency) × (latency <ℤ hi)

-- The row of the bucket in which `Add` counts a latency shows a range that the latency lies in, unless
-- it is that of the last bucket.
pub nth-find_bucket :
    (b : ℤ) (bs : List ℤ) (latency : ℤ)
    → Within latency (nth (b ∷ bs) (find_bucket (b ∷ bs) latency))
unfolding nth find_bucket
nth-find_bucket b [] latency = tt
nth-find_bucket b (c ∷ bs) latency = elim (Bool-cases (leb_ℤ b latency && ltb_ℤ latency c)) [
  | inl e ↦ rw (find_bucket, e, nth) (ground (arith, e))
  | inr e ↦ rw (find_bucket, e, nth) (nth-find_bucket c bs latency)
]
