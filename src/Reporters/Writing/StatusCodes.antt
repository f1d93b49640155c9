-- ===== src/Reporters/Writing/StatusCodes.antt =====
-- lib/reporters.go and lib/metrics.go: the status codes that the text report lists.
use vegeta.Prelude.{
  ℕ, ◌+◌, ◌^◌, ◌<◌, ◌≡◌, refl, ap, subst, sym, ◌∙◌, inl, inr, false, List, [], ◌∷◌, map, ◌==◌,
  arith, All, Any, All-weaken, Bool-cases, ==_iff,
}
use vegeta.Prelude.Text.{Text, text_key, text_eq, text_eq_iff}
use vegeta.Prelude.Map.{assign}
use vegeta.Prelude.Sort.{sort, text_lt, Ascending, Distinct, All-sort, Any-sort, sort-Ascending}
use vegeta.Decimal.{format_uint}
use vegeta.Float.{Float64}
use vegeta.Results.{Result}
use vegeta.Metrics.{Estimator, made, blank, count_at, count_code}
use vegeta.Metrics.Counts.{collected, count_of, HasCodes, collected_codes, status_codes-add_counts}
use vegeta.Reporters.Writing.{status_rows}

abbrev pub keys : List (Text × ℕ) → List Text
keys = map (λ entry. entry.0)

-- The keys of a map behind an assignment.
module _ (k : Text) (n : ℕ) where
  All-assign {ℓ} :
      (P : Text → Type ℓ) (m : List (Text × ℕ)) → P k → All P (keys m) → All P (keys (assign k n m))
  unfolding assign
  All-assign P [] pk h = (pk, tt)
  All-assign P ((j, w) ∷ m) pk h = elim (Bool-cases (text_eq j k)) [
    | inl e ↦ rw (assign, e) (pk, h.1)
    | inr e ↦ rw (assign, e) (h.0, All-assign P m pk h.1)
  ]

  Distinct-assign : (m : List (Text × ℕ)) → Distinct (keys m) → Distinct (keys (assign k n m))
  unfolding assign
  Distinct-assign [] d = (tt, tt)
  Distinct-assign ((j, w) ∷ m) d = elim (Bool-cases (text_eq j k)) [
    | inl e ↦ rw (assign, e) (subst (λ i. Distinct (i ∷ keys m)) ((text_eq_iff j k).0 e) d)
    | inr e ↦ rw (assign, e) (All-assign (λ y. text_eq j y ≡ false) m e d.0, Distinct-assign m d.1)
  ]

  Any-assign-here : (P : Text → Type 0) (m : List (Text × ℕ)) → P k → Any P (keys (assign k n m))
  unfolding assign
  Any-assign-here P [] pk = inl pk
  Any-assign-here P ((j, w) ∷ m) pk = elim (Bool-cases (text_eq j k)) [
    | inl e ↦ rw (assign, e) (inl pk)
    | inr e ↦ rw (assign, e) (inr (Any-assign-here P m pk))
  ]

  Any-assign-there :
      (P : Text → Type 0) (m : List (Text × ℕ)) → Any P (keys m) → Any P (keys (assign k n m))
  unfolding assign
  Any-assign-there P [] h = elim h [ ]
  Any-assign-there P ((j, w) ∷ m) (inl pj) = elim (Bool-cases (text_eq j k)) [
    | inl e ↦ rw (assign, e) (inl (subst P ((text_eq_iff j k).0 e) pj))
    | inr e ↦ rw (assign, e) (inl pj)
  ]
  Any-assign-there P ((j, w) ∷ m) (inr h) = elim (Bool-cases (text_eq j k)) [
    | inl e ↦ rw (assign, e) (inr h)
    | inr e ↦ rw (assign, e) (inr (Any-assign-there P m h))
  ]

-- A text is the code of one of the results.
abbrev IsCodeOf : List Result → Text → Type 0
IsCodeOf rs k = Any (λ r. k ≡ format_uint r.code) rs

module _ (fl : Float64) (est : Estimator fl) where
  counted :
      (rs : List Result) (k : Text)
      → HasCodes fl est rs
      → IsCodeOf rs k
      → (c : ℕ) × (c < 2 ^ 16) × (k ≡ format_uint c) × (0 < count_of (λ r. r.code == c) rs)
  counted [] k h here = elim here [ ]
  counted (r ∷ rs) k h (inl e) = (r.code, h.0, e, rw ((==_iff r.code r.code).1 refl) (omega arith))
  counted (r ∷ rs) k h (inr later) =
      let (c, lt, e, n) = counted rs k h.1 later in (c, lt, e, omega (arith, n))

  abbrev codes_of : List Result → List Text
  codes_of rs = keys (made (collected fl est rs).status_codes)

  codes_of-Distinct : (rs : List Result) → Distinct (codes_of rs)
  unfolding collected blank count_code
  codes_of-Distinct [] = tt
  codes_of-Distinct (r ∷ rs) = rw (status_codes-add_counts fl est (collected fl est rs) r) (
      Distinct-assign (format_uint r.code)
        (count_at (format_uint r.code) (made (collected fl est rs).status_codes) + 1)
        (made (collected fl est rs).status_codes) (codes_of-Distinct rs))

  codes_of-IsCodeOf : (rs : List Result) → All (IsCodeOf rs) (codes_of rs)
  unfolding collected blank count_code
  codes_of-IsCodeOf [] = tt
  codes_of-IsCodeOf (r ∷ rs) = rw (status_codes-add_counts fl est (collected fl est rs) r) (
      All-assign (format_uint r.code)
        (count_at (format_uint r.code) (made (collected fl est rs).status_codes) + 1)
        (IsCodeOf (r ∷ rs)) (made (collected fl est rs).status_codes) (inl refl)
        (All-weaken (IsCodeOf rs) (IsCodeOf (r ∷ rs)) (λ k h. inr h) (codes_of rs)
          (codes_of-IsCodeOf rs)))

  codes_of-Any : (rs : List Result) → All (λ r. Any (λ k. k ≡ format_uint r.code) (codes_of rs)) rs
  unfolding collected blank count_code
  codes_of-Any [] = tt
  codes_of-Any (r ∷ rs) =
      subst (λ ks. All (λ q. Any (λ k. k ≡ format_uint q.code) ks) (r ∷ rs))
        (sym (ap (λ c. keys (made c)) (status_codes-add_counts fl est (collected fl est rs) r)))
        (
          Any-assign-here (format_uint r.code)
              (count_at (format_uint r.code) (made (collected fl est rs).status_codes) + 1)
              (λ k. k ≡ format_uint r.code) (made (collected fl est rs).status_codes) refl,
          All-weaken (λ q. Any (λ k. k ≡ format_uint q.code) (codes_of rs))
              (λ q.
                Any (λ k. k ≡ format_uint q.code)
                  (keys (count_code r.code (made (collected fl est rs).status_codes))))
              (λ q h.
                Any-assign-there (format_uint r.code)
                  (count_at (format_uint r.code) (made (collected fl est rs).status_codes) + 1)
                  (λ k. k ≡ format_uint q.code) (made (collected fl est rs).status_codes) h)
              rs (codes_of-Any rs),
        )

  -- A row holds the decimal form of a code and the number of results with it, of which there are some.
  abbrev pub IsRowOf : List Result → Text × ℕ → Type 0
  IsRowOf rs row =
      (c : ℕ) × (row.0 ≡ format_uint c) × (row.1 ≡ count_of (λ r. r.code == c) rs) × (0 < row.1)

  abbrev rows_for : List Result → List Text → List (Text × ℕ)
  rows_for rs = map (λ code. (code, count_at code (made (collected fl est rs).status_codes)))

  rows_for-All :
      (rs : List Result) (codes : List Text)
      → HasCodes fl est rs
      → All (IsCodeOf rs) codes
      → All (IsRowOf rs) (rows_for rs codes)
  rows_for-All rs [] h all = tt
  rows_for-All rs (k ∷ codes) h all =
      let (c, lt, e, n) = counted rs k h all.0 in
      let count =
        ap (λ t. count_at t (made (collected fl est rs).status_codes)) e
        ∙ collected_codes fl est rs c h lt in
      ((c, e, count, omega (arith, count, n)), rows_for-All rs codes h all.1)

  rows_for-Any :
      (rs : List Result) (codes : List Text) (P : Text → Type 0)
      → Any P codes
      → Any (λ row. P row.0) (rows_for rs codes)
  rows_for-Any rs [] P h = elim h [ ]
  rows_for-Any rs (k ∷ codes) P (inl pk) = inl pk
  rows_for-Any rs (k ∷ codes) P (inr h) = inr (rows_for-Any rs codes P h)

  keys-rows_for : (rs : List Result) (codes : List Text) → keys (rows_for rs codes) ≡ codes
  keys-rows_for rs [] = refl
  keys-rows_for rs (k ∷ codes) = ap (λ ks. k ∷ ks) (keys-rows_for rs codes)

  -- After any results with status codes of 16 bits, the rows of status codes in the text report stand
  -- in strictly ascending order of their text, each holds the decimal form of a code with the number of
  -- results that have it, which is not 0, and the code of every result has a row.
  pub status_rows-collected :
      (rs : List Result)
      → HasCodes fl est rs
      → let rows = status_rows fl est (collected fl est rs) in
        Ascending (map (λ row. row.0) rows)
        × All (IsRowOf rs) rows
        × All (λ r. Any (λ row. row.0 ≡ format_uint r.code) rows) rs
  unfolding status_rows
  status_rows-collected rs h =
      let sorted = sort text_lt (codes_of rs) in
      (
        subst Ascending (sym (keys-rows_for rs sorted))
            (sort-Ascending (codes_of rs) (codes_of-Distinct rs)),
        rows_for-All rs sorted h
            (All-sort text_lt (IsCodeOf rs) (codes_of rs) (codes_of-IsCodeOf rs)),
        All-weaken (λ r. Any (λ k. k ≡ format_uint r.code) (codes_of rs))
            (λ r. Any (λ row. row.0 ≡ format_uint r.code) (rows_for rs sorted))
            (λ r here.
              rows_for-Any rs sorted (λ k. k ≡ format_uint r.code)
                (Any-sort text_lt (λ k. k ≡ format_uint r.code) (codes_of rs) here))
            rs (codes_of-Any rs),
      )
