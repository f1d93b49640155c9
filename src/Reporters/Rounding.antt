-- ===== src/Reporters/Rounding.antt =====
-- lib/reporters.go: how far `round` is from the duration.
use native.Mathlib.Nat.{mod-lt}
use vegeta.Prelude.{
  ℕ, ◌+◌, ◌-◌, ◌*◌, ◌%◌, ◌^◌, ◌<◌, ◌≤◌, ◌≡◌, refl, inl, inr, List, [], ◌∷◌, ltb, arith, lt→ltb,
  ltb→lt, Bool-cases,
}
use vegeta.Prelude.Int.{pos, leb_ℤ}
use vegeta.Reporters.{durations, round_to, round_by, round}

-- Half a unit at most lies between a duration and its multiple.
round_to-near :
    (m n : ℕ)
    → 0 < m
    → n + m < 2 ^ 63
    → (k : ℕ) × (round_to m (pos n) ≡ pos k) × (k + k ≤ n + n + m) × (n + n ≤ k + k + m)
unfolding round_to
round_to-near m n some_unit fits = elim (Bool-cases (ltb (n % m + n % m) m)) [
  | inl e ↦
      (n - n % m, rw (round_to, e) refl, omega arith, omega (arith, ltb→lt (n % m + n % m) m e))
  | inr e ↦
      let half : m ≤ n % m + n % m = ground (arith, e) in
      (
        n + (m - n % m),
        rw (round_to, e, lt→ltb (n + (m - n % m)) (2 ^ 63) (omega (arith, fits))) refl,
        omega (arith, half),
        omega (arith, mod-lt n some_unit),
      )
]

-- Each unit has sixty of the next one or more.
abbrev AreFine : List ℕ → Type 0
AreFine [] = Unit
AreFine (u ∷ []) = Unit
AreFine (u ∷ v ∷ us) = (0 < v) × (60 * v ≤ u) × AreFine (v ∷ us)

round_by-near :
    (units : List ℕ) (n : ℕ)
    → AreFine units
    → n < 2 ^ 62
    → (k : ℕ) × (round_by units (pos n) ≡ pos k) × (120 * k ≤ 121 * n) × (119 * n ≤ 120 * k)
unfolding round_by
round_by-near [] n fine small = (n, refl, omega arith, omega arith)
round_by-near (u ∷ []) n fine small = (n, refl, omega arith, omega arith)
round_by-near (u ∷ v ∷ us) n (some_unit, sixty, fine) small =
    elim (Bool-cases (leb_ℤ (pos u) (pos n))) [
      | inl e ↦
          let long : u ≤ n = ground (arith, e) in
          let (k, at, above, below) =
            round_to-near v n some_unit (omega (arith, sixty, long, small)) in
          (
            k,
            rw (round_by, e) at,
            omega (arith, above, sixty, long),
            omega (arith, below, sixty, long),
          )
      | inr e ↦
          let (k, at, above, below) = round_by-near (v ∷ us) n fine small in
          (k, rw (round_by, e) at, above, below)
    ]

-- The rounded duration of a report is within one part in 120 of the duration, for durations from
-- nothing to 146 years.
pub round-IsNear :
    (n : ℕ)
    → n < 2 ^ 62
    → (k : ℕ) × (round (pos n) ≡ pos k) × (120 * k ≤ 121 * n) × (119 * n ≤ 120 * k)
unfolding round
round-IsNear n small =
    round_by-near durations n
      (
        omega arith,
        omega arith,
        (
          omega arith,
          omega arith,
          (omega arith, omega arith, (omega arith, omega arith, (omega arith, omega arith, tt))),
        ),
      )
      small
