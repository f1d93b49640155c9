-- ===== src/Results/Sorted.antt =====
-- lib/results.go, `Results`: results as a report that sorts them by time. `sort.Sort` leaves open the order of
-- results of one time; here it is that of the list.
use mathlib.Core.List.{Perm}
use vegeta.Prelude.{
  ◌≡◌, ◌∙◌, sym, subst, Bool, true, false, List, [], ◌∷◌, ◌++◌, append_assoc, append-nil, arith,
}
use vegeta.Prelude.Int.{ltb_ℤ}
use vegeta.Prelude.Sort.{sort, Ordered, sort-Ordered, sort-Perm}
use vegeta.Results.{Result}

-- `Results.Add`.
unfoldable pub add_result : List Result → Result → List Result
add_result rs r = rs ++ r ∷ []

-- `Results.Less`.
abbrev pub is_before : Result → Result → Bool
is_before r s = ltb_ℤ r.timestamp s.timestamp

-- `Results.Close`.
unfoldable pub close_results : List Result → List Result
unfolding sort
close_results rs = sort is_before rs

-- Adding one after another.
unfoldable pub collect_results : List Result → List Result → List Result
unfolding add_result
collect_results rs [] = rs
collect_results rs (r ∷ more) = collect_results (add_result rs r) more

collect_results-append : (rs more : List Result) → collect_results rs more ≡ rs ++ more
unfolding collect_results add_result
collect_results-append rs [] = sym (append-nil rs)
collect_results-append rs (r ∷ more) =
    collect_results-append (rs ++ r ∷ []) more ∙ append_assoc rs (r ∷ []) more

is_before-asym : (r s : Result) → is_before r s ≡ true → is_before s r ≡ false
is_before-asym r s e = ground (arith, e)

-- Results that are added one after another and then closed are the same results, each as often, and no
-- result comes before one with an earlier timestamp.
pub close_results-collect_results :
    (rs : List Result)
    → let closed = close_results (collect_results [] rs) in
      Ordered is_before closed × Perm closed rs
unfolding close_results
close_results-collect_results rs =
    subst (λ all. Ordered is_before (sort is_before all) × Perm (sort is_before all) rs)
      (sym (collect_results-append [] rs))
      (sort-Ordered is_before is_before-asym rs, sort-Perm is_before rs)
