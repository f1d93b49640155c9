-- ===== src/Histogram/Json.antt =====
-- lib/histogram.go, `MarshalJSON`: the buckets of a histogram with their counts, as a JSON object.
use vegeta.Prelude.{
  ℕ, zero, suc, ◌+◌, ◌≤◌, ◌≡◌, refl, ap, inl, inr, none, some, List, [], ◌∷◌, ◌++◌, map, ltb,
  length, get_elem?, drop, if◌then◌else◌, arith, Option-cases, Bool-cases, lt→ltb, le→ltb,
  append-nil,
}
use vegeta.Prelude.Int.{ℤ}
use vegeta.Prelude.Text.{Text, codes}
use vegeta.Decimal.{format_uint, format_int}
use vegeta.Outcome.{Outcome, returns, panics}
use vegeta.Histogram.{Histogram}

-- `"%d": %d`.
abbrev pub entry : ℤ × ℕ → Text
entry (bucket, count) = codes "\"" ++ format_int bucket ++ codes "\": " ++ format_uint count

-- The loop over the buckets from the place `i` on. `h.Counts[i]` panics out of range.
unfoldable pub write_entries : ℕ → List ℤ → List ℕ → Outcome Text
write_entries i [] counts = returns []
write_entries i (b ∷ bs) counts =
    let rest = write_entries (suc i) bs counts in
    elim (get_elem? counts i) [
      | none ↦ panics
      | some n ↦ elim rest [
        | panics ↦ panics
        | returns more ↦ returns ((if ltb 0 i then codes ", " else []) ++ (entry (b, n) ++ more))
      ]
    ]

-- The entries between braces.
abbrev pub braced : Outcome Text → Outcome Text
braced panics = panics
braced (returns entries) = returns (codes "{" ++ entries ++ codes "}")

-- `MarshalJSON`.
unfoldable pub marshal_json : Histogram → Outcome Text
unfolding write_entries
marshal_json h = braced (write_entries 0 h.buckets h.counts)

-- Texts with a comma between each two.
abbrev pub with_commas : List Text → Text
with_commas [] = []
with_commas (t ∷ []) = t
with_commas (t ∷ u ∷ ts) = t ++ (codes ", " ++ with_commas (u ∷ ts))

abbrev pub zip {ℓ κ} : {A : Type ℓ} {B : Type κ} → List A → List B → List (A × B)
zip (x ∷ xs) (y ∷ ys) = (x, y) ∷ zip xs ys
zip _ _ = []

-- Texts with a comma before each.
abbrev commas_before : List Text → Text
commas_before [] = []
commas_before (t ∷ ts) = codes ", " ++ (t ++ commas_before ts)

with_commas-cons : (t : Text) (ts : List Text) → t ++ commas_before ts ≡ with_commas (t ∷ ts)
with_commas-cons t [] = append-nil t
with_commas-cons t (u ∷ ts) = ap (λ r. t ++ (codes ", " ++ r)) (with_commas-cons u ts)

drop-at :
    (counts : List ℕ) (i n : ℕ)
    → get_elem? counts i ≡ some n
    → drop i counts ≡ n ∷ drop (suc i) counts
drop-at [] i n e = absurd cc
drop-at (c ∷ counts) zero n e = ground (arith, e)
drop-at (c ∷ counts) (suc i) n e = drop-at counts i n e

get_elem?-none : (counts : List ℕ) (i : ℕ) → get_elem? counts i ≡ none → length counts ≤ i
get_elem?-none [] i e = omega arith
get_elem?-none (c ∷ counts) zero e = absurd cc
get_elem?-none (c ∷ counts) (suc i) e = omega (arith, get_elem?-none counts i e)

get_elem?-some : (counts : List ℕ) (i n : ℕ) → get_elem? counts i ≡ some n → suc i ≤ length counts
get_elem?-some [] i n e = absurd cc
get_elem?-some (c ∷ counts) zero n e = omega arith
get_elem?-some (c ∷ counts) (suc i) n e = omega (arith, get_elem?-some counts i n e)

shift : (i n : ℕ) → suc i + suc n ≡ suc (suc i) + n
shift i n = omega arith

one_more : (n : ℕ) → 1 + n ≡ suc n
one_more n = omega arith

-- The entries behind the first place.
write_entries-suc :
    (i : ℕ) (bs : List ℤ) (counts : List ℕ)
    → suc i ≤ length counts
    → write_entries (suc i) bs counts ≡ (
        if ltb (length counts) (suc i + length bs)
        then panics
        else returns (commas_before (map entry (zip bs (drop (suc i) counts)))))
unfolding write_entries
write_entries-suc i [] counts le = rw (le→ltb (length counts) (suc i + 0) (omega (arith, le))) refl
write_entries-suc i (b ∷ bs) counts le = elim (Option-cases (get_elem? counts (suc i))) [
  | inl e ↦
      rw
        (
          write_entries,
          e,
          lt→ltb (length counts) (suc i + suc (length bs))
              (omega (arith, get_elem?-none counts (suc i) e)),
        )
        refl
  | inr (n, e) ↦
      rw
        (
          write_entries,
          e,
          drop-at counts (suc i) n e,
          write_entries-suc (suc i) bs counts (get_elem?-some counts (suc i) n e),
        )
        (elim (Bool-cases (ltb (length counts) (suc (suc i) + length bs))) [
          | inl f ↦ rw (shift i (length bs), f) refl
          | inr f ↦ rw (shift i (length bs), f, lt→ltb 0 (suc i) (omega arith)) refl
        ])
]

-- `MarshalJSON` gives the object of the buckets with their counts, in the order of the buckets; with
-- fewer counts than buckets, as before the first result, it panics.
pub marshal_json_lem :
    (h : Histogram)
    → marshal_json h ≡ (
        if ltb (length h.counts) (length h.buckets)
        then panics
        else returns (codes "{" ++ with_commas (map entry (zip h.buckets h.counts)) ++ codes "}"))
unfolding marshal_json write_entries
marshal_json_lem h = go h.buckets h.counts
  where
    go :
        (bs : List ℤ) (counts : List ℕ)
        → braced (write_entries 0 bs counts) ≡ (
            if ltb (length counts) (length bs)
            then panics
            else returns (codes "{" ++ with_commas (map entry (zip bs counts)) ++ codes "}"))
    go [] counts = rw (le→ltb (length counts) 0 (omega arith)) refl
    go (b ∷ bs) [] = rw (lt→ltb 0 (suc (length bs)) (omega arith)) refl
    go (b ∷ bs) (n ∷ counts) =
        rw (write_entries-suc 0 bs (n ∷ counts) (omega arith))
          (elim (Bool-cases (ltb (length (n ∷ counts)) (suc (length bs)))) [
            | inl f ↦ rw (one_more (length bs), f) refl
            | inr f ↦
                rw (one_more (length bs), f)
                  (ap (λ entries. returns (codes "{" ++ entries ++ codes "}"))
                    (with_commas-cons (entry (b, n)) (map entry (zip bs counts))))
          ])
