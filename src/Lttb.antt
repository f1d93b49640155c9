-- ===== src/Lttb.antt =====
-- lib/lttb/lttb.go: downsampling by largest triangles.
pub mod Samples
pub mod Threshold
mod Tests
use vegeta.Prelude.{
  ℕ, suc, zero, ◌-◌, ◌||◌, Option, none, some, List, [], ◌∷◌, ◌++◌, if◌then◌else◌, length,
  get_elem?,
}
use vegeta.Prelude.Int.{ℤ, pos, pos_part, ◌+ℤ◌, ◌-ℤ◌, ◌==ℤ◌, ltb_ℤ, leb_ℤ, int64}
use vegeta.Outcome.{Fallible, ok, err, ◌>>=◌}
use vegeta.Float.{Float64}

-- How a call fails: with the error for a small threshold, with an error of the iterator, or by a panic
-- as an index is out of range.
pub data LttbError (E : Type 0) : Type 0 where
  min_threshold : LttbError E
  from_iter : E → LttbError E
  out_of_range : LttbError E

module _ (fl : Float64) where
  open fl use {F, add, sub, mul, div, lt, of_int, of_uint, to_int64}

  pub record Point : Type 0 where
    pub x : F
    pub y : F

  -- The sum of the points in `next`, from `c` on.
  unfoldable pub sum_points : List Point → Point → Point
  sum_points [] c = c
  sum_points (p ∷ ps) c = sum_points ps (record { x = add c.x p.x; y = add c.y p.y })

  -- The average of the next bucket.
  unfoldable pub average : List Point → Point
  unfolding sum_points
  average next =
      let c = sum_points next (record { x = of_uint 0; y = of_uint 0 }) in
      let n = of_int (pos (length next)) in record { x = div c.x n; y = div c.y n }

  -- The square of the area.
  abbrev pub area : Point → Point → Point → F
  area a c p =
      let v = sub (mul (sub a.x c.x) (sub p.y a.y)) (mul (sub a.x p.x) (sub c.y a.y)) in mul v v

  -- The loop over the current bucket from the index `i` on.
  unfoldable pub largest_index : Point → Point → List Point → ℕ → F → ℕ → ℕ
  largest_index a c [] i largest index = index
  largest_index a c (p ∷ ps) i largest index =
      if lt largest (area a c p)
      then largest_index a c ps (suc i) (area a c p) i
      else largest_index a c ps (suc i) largest index

  abbrev pub last_of : List Point → Option Point
  last_of [] = none
  last_of (p ∷ []) = some p
  last_of (p ∷ q ∷ ps) = last_of (q ∷ ps)

  -- The last point, of the points that are left or else of the last bucket.
  abbrev pub with_last : List Point → List Point → List Point → List Point
  with_last samples [] current = elim (last_of current) [
    | none ↦ samples
    | some p ↦ samples ++ p ∷ []
  ]
  with_last samples (q ∷ qs) current = elim (last_of (q ∷ qs)) [
    | none ↦ samples
    | some p ↦ samples ++ p ∷ []
  ]

  module _ {E : Type 0} where
    unfoldable pub sample : Point → List Point → List Point → Fallible (LttbError E) Point
    unfolding average largest_index
    sample a current next =
        elim (get_elem? current (largest_index a (average next) current 0 (of_uint 0) 0)) [
          | none ↦ err out_of_range
          | some p ↦ ok p
        ]

  -- `float64(count-2) / float64(threshold-2)`.
  abbrev pub bucket_size : ℤ → ℤ → F
  bucket_size count threshold =
      div (of_int (int64 (count -ℤ pos 2))) (of_int (int64 (threshold -ℤ pos 2)))

  -- The boundary of a bucket.
  abbrev pub bound : F → ℕ → ℤ
  bound size i = int64 (to_int64 (mul (of_int (pos i)) size) +ℤ pos 1)

  -- An `Iter` with its state.
  module _ {E S : Type 0} (pull : ℤ → S → Fallible E (List Point × S)) where
    unfoldable pub from : ℤ → S → Fallible (LttbError E) (List Point × S)
    from n s = elim (pull n s) [ ok r ↦ ok r | err e ↦ err (from_iter e) ]

    -- The loop: `left` rounds are left, `a` is the last sample. The samples of the rounds, and the last bucket.
    unfoldable pub rounds :
        F → ℕ → ℕ → Point → List Point → S → Fallible (LttbError E) (List Point × List Point × S)
    unfolding from sample
    rounds size zero i a current s = ok ([], current, s)
    rounds size (suc left) i a current s =
        from (int64 (bound size (suc (suc i)) -ℤ bound size (suc i))) s >>= λ pulled.
        sample a current pulled.0 >>= λ b.
        rounds size left (suc i) b pulled.0 pulled.1 >>= λ done. ok (b ∷ done.0, done.1, done.2)

    -- The first point is taken, and the others of its pull are the first bucket.
    abbrev pub first_bucket : List Point × S → Fallible (LttbError E) (Point × List Point × S)
    first_bucket ([], s) = err out_of_range
    first_bucket (p ∷ ps, s) = ok (p, ps, s)

    -- `Downsample` past the checks.
    unfoldable pub in_buckets : ℤ → ℤ → S → Fallible (LttbError E) (List Point)
    unfolding from rounds
    in_buckets count threshold s =
        let size = bucket_size count threshold in
        from (to_int64 (add (of_uint 1) size)) s >>= λ pulled. first_bucket pulled >>= λ first.
        rounds size (pos_part threshold - 2) 0 first.0 first.1 first.2 >>= λ done.
        let samples = first.0 ∷ done.0 in
        from (int64 (count -ℤ pos (length samples))) done.2 >>= λ rest.
        ok (with_last samples rest.0 done.1)

    -- `Downsample`.
    unfoldable pub downsample : ℤ → ℤ → S → Fallible (LttbError E) (List Point)
    unfolding from in_buckets
    downsample count threshold s =
        if leb_ℤ count threshold || threshold ==ℤ pos 0
        then (from count s >>= λ pulled. ok pulled.0)
        else if ltb_ℤ threshold (pos 3)
        then err min_threshold
        else in_buckets count threshold s
