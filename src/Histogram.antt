-- ===== src/Histogram.antt =====
-- lib/histogram.go: latency buckets and their counts.
pub mod Buckets
pub mod Json
mod Tests
use vegeta.Prelude.{
  ℕ, zero, suc, ◌+◌, ◌%◌, ◌^◌, Bool, true, false, not, ◌&&◌, ◌||◌, Option, none, some, List, [],
  ◌∷◌, ◌++◌, ltb, ◌==◌, if◌then◌else◌, length, replicate, get_elem?, set,
}
use vegeta.Prelude.Int.{ℤ, pos, ltb_ℤ, leb_ℤ}
use vegeta.Prelude.Text.{Text, trim_space, split, is_empty}
use vegeta.Results.{Result}
use vegeta.Outcome.{Outcome, returns, panics, Fallible, ok, err}

pub record Histogram : Type 0 where
  pub buckets : List ℤ
  pub counts : List ℕ
  pub total : ℕ

-- The loop of `Add`: the first bucket that holds the latency, or the last bucket.
unfoldable pub find_bucket : List ℤ → ℤ → ℕ
find_bucket [] latency = 0
find_bucket (b ∷ []) latency = 0
find_bucket (b ∷ next ∷ bs) latency =
    let rest = find_bucket (next ∷ bs) latency in
    if leb_ℤ b latency && ltb_ℤ latency next then 0 else suc rest

-- `h.Counts[i]++`, which panics out of range.
unfoldable pub increment : List ℕ → ℕ → Outcome (List ℕ)
increment counts i = elim (get_elem? counts i) [
  | none ↦ panics
  | some n ↦ returns (set counts i ((n + 1) % 2 ^ 64))
]

-- The counts that `Add` starts from: fresh ones if there are not as many as buckets.
unfoldable pub counts_for : Histogram → List ℕ
counts_for h =
    if length h.counts == length h.buckets then h.counts else replicate (length h.buckets) 0

unfoldable pub add : Histogram → Result → Outcome Histogram
unfolding counts_for
add h r = elim (increment (counts_for h) (find_bucket h.buckets r.latency)) [
  | panics ↦ panics
  | returns counts ↦ returns (record h { counts = counts; total = (h.total + 1) % 2 ^ 64 })
]

pub data BucketsError : Type 0 where
  bad_buckets : BucketsError
  bad_duration : BucketsError

-- The last character of a text that is not empty.
unfoldable pub last_or : ℕ → Text → ℕ
last_or d [] = d
last_or d (c ∷ s) = last_or c s

-- All but the last character.
unfoldable pub but_last : Text → Text
but_last [] = []
but_last (c ∷ s) = let rest = but_last s in if is_empty s then [] else c ∷ rest

-- The check at the end of `UnmarshalText`.
unfoldable pub check_buckets : Fallible BucketsError (List ℤ) → Fallible BucketsError (List ℤ)
check_buckets (err e) = err e
check_buckets (ok []) = err bad_buckets
check_buckets (ok (b ∷ bs)) = ok (b ∷ bs)

-- `time.ParseDuration` is a parameter.
module _ (parse_duration : Text → Option ℤ) where
  -- The loop of `UnmarshalText`, with `first` for `i == 0`.
  unfoldable pub add_parts : Bool → List ℤ → List Text → Fallible BucketsError (List ℤ)
  add_parts first bs [] = ok bs
  add_parts first bs (v ∷ vs) = elim (parse_duration (trim_space v)) [
    | none ↦ err bad_duration
    | some d ↦
        add_parts false ((if first && ltb_ℤ (pos 0) d then bs ++ pos 0 ∷ [] else bs) ++ d ∷ []) vs
  ]

  -- `UnmarshalText`, of the buckets held before and the text.
  unfoldable pub unmarshal_text : List ℤ → Text → Fallible BucketsError (List ℤ)
  unfolding add_parts check_buckets last_or but_last
  unmarshal_text bs [] = err bad_buckets
  unmarshal_text bs (c ∷ s) =
      if is_empty s || not (c == b'[') || not (last_or 0 s == b']')
      then err bad_buckets
      else check_buckets (add_parts true bs (split b',' (but_last s)))
