-- ===== src/Reports/Every.antt =====
-- report.go: with `-every`, the reports on the way do not change the ones after them.
use vegeta.Prelude.{
  ℕ, suc, ◌≡◌, refl, ap, sym, ◌∙◌, ◌⊎◌, inl, inr, Option, none, some, List, [], ◌∷◌,
}
use vegeta.Prelude.Text.{Text}
use vegeta.Outcome.{Outcome, returns, panics}
use vegeta.Results.{Result}
use vegeta.Reports.{
  Report, Event, interrupted, ticked, decoded, ended, failed, Ending, reading, done, stopped,
  crashed, finish, written, report_loop,
}

pub Outcome-cases : {A : Type 0} (x : Outcome A) → ((a : A) × (x ≡ returns a)) ⊎ (x ≡ panics)
Outcome-cases (returns a) = inl (a, refl)
Outcome-cases panics = inr refl

-- The laws of a report on which `-every` relies: a report that is closed can be added to, as if it had
-- not been closed. `Fits n s` says that `s` has room for `n` more results.
pub record IsTransparent (rep : Report) (Fits : ℕ → rep.State → Type 0) : Type 0 where
  pub add-Fits :
      (n : ℕ) (s s1 : rep.State) (r : Result)
      → Fits (suc n) s
      → rep.add s r ≡ returns s1
      → Fits n s1
  pub close-Fits : (n : ℕ) (s t : rep.State) → rep.close s ≡ rep.close t → Fits n s → Fits n t
  pub close_again : (s : rep.State) → rep.close (rep.close s) ≡ rep.close s
  pub add_closed :
      (n : ℕ) (s s1 : rep.State) (r : Result)
      → Fits (suc n) s
      → rep.add s r ≡ returns s1
      → (s2 : rep.State) × (rep.add (rep.close s) r ≡ returns s2) × (rep.close s2 ≡ rep.close s1)
  pub add_closed-panics :
      (s : rep.State) (r : Result) → rep.add s r ≡ panics → rep.add (rep.close s) r ≡ panics

-- The number of results that are decoded.
abbrev pub results_in : List Event → ℕ
results_in [] = 0
results_in (interrupted ∷ es) = results_in es
results_in (ended ∷ es) = results_in es
results_in (failed e ∷ es) = results_in es
results_in (ticked e ∷ es) = results_in es
results_in (decoded r ∷ es) = suc (results_in es)

module _ (rep : Report) where
  -- What is reported: at each tick the results so far, at the end all of them.
  unfoldable pub reported : Option Text → List Event → rep.State → List rep.State × Ending
  reported last [] s = ([], reading)
  reported last (interrupted ∷ es) s = finish rep last s
  reported last (ended ∷ es) s = finish rep last s
  reported last (failed e ∷ es) s = ([], stopped e)
  reported last (ticked (some e) ∷ es) s = ([], stopped e)
  reported last (ticked none ∷ es) s = written rep (rep.close s) (reported last es s)
  reported last (decoded r ∷ es) s = elim (rep.add s r) [
    | panics ↦ ([], crashed)
    | returns s1 ↦ reported last es s1
  ]

  module _ (Fits : ℕ → rep.State → Type 0) (laws : IsTransparent rep Fits) where
    finish_same :
        (last : Option Text) (s t : rep.State)
        → rep.close s ≡ rep.close t
        → finish rep last s ≡ finish rep last t
    unfolding finish
    finish_same none s t same = ap (λ c. (c ∷ [], done)) same
    finish_same (some e) s t same = refl

    -- Two states that close to the same one go on alike.
    add_same :
        (n : ℕ) (s t t1 : rep.State) (r : Result)
        → rep.close s ≡ rep.close t
        → Fits (suc n) s
        → Fits (suc n) t
        → rep.add t r ≡ returns t1
        → (s1 : rep.State) × (rep.add s r ≡ returns s1) × (rep.close s1 ≡ rep.close t1)
    add_same n s t t1 r same fits fits_t added =
        let (t2, e, back) = laws.add_closed n t t1 r fits_t added in
        elim (Outcome-cases (rep.add s r)) [
          | inl (s1, f) ↦ let (s2, g, back_s) = laws.add_closed n s s1 r fits f in (s1, f, (cc))
          | inr f ↦ let g = laws.add_closed-panics s r f in absurd (cc)
        ]

    both_panic :
        (s t : rep.State) (r : Result)
        → rep.close s ≡ rep.close t
        → (n : ℕ) → Fits (suc n) s
        → rep.add t r ≡ panics
        → rep.add s r ≡ panics
    both_panic s t r same n fits e =
        let g = laws.add_closed-panics t r e in
        elim (Outcome-cases (rep.add s r)) [
          | inl (s1, f) ↦ let (s2, h, _) = laws.add_closed n s s1 r fits f in absurd (cc)
          | inr f ↦ f
        ]

    -- The step of both loops on a result.
    decoded_same :
        (last : Option Text) (es : List Event) (s t : rep.State) (r : Result)
        → ((s1 t1 : rep.State)
            → rep.add s r ≡ returns s1
            → rep.add t r ≡ returns t1
            → rep.close s1 ≡ rep.close t1
            → report_loop rep last es s1 ≡ reported last es t1)
        → rep.close s ≡ rep.close t
        → Fits (suc (results_in es)) s
        → Fits (suc (results_in es)) t
        → report_loop rep last (decoded r ∷ es) s ≡ reported last (decoded r ∷ es) t
    unfolding report_loop reported
    decoded_same last es s t r rest same fits fits_t = elim (Outcome-cases (rep.add t r)) [
      | inl (t1, e) ↦
          let (s1, f, same1) = add_same (results_in es) s t t1 r same fits fits_t e in
          ap (λ o. elim o [ panics ↦ ([], crashed) | returns s2 ↦ report_loop rep last es s2 ]) f
          ∙ rest s1 t1 f e same1
          ∙ sym (ap (λ o. elim o [ panics ↦ ([], crashed) | returns t2 ↦ reported last es t2 ]) e)
      | inr e ↦
          let f = both_panic s t r same (results_in es) fits e in
          ap (λ o. elim o [ panics ↦ ([], crashed) | returns s2 ↦ report_loop rep last es s2 ]) f
          ∙ sym (ap (λ o. elim o [ panics ↦ ([], crashed) | returns t2 ↦ reported last es t2 ]) e)
    ]

    loop_same :
        (last : Option Text) (es : List Event) (s t : rep.State)
        → rep.close s ≡ rep.close t
        → Fits (results_in es) s
        → Fits (results_in es) t
        → report_loop rep last es s ≡ reported last es t
    unfolding report_loop reported
    loop_same last [] s t same fits fits_t = refl
    loop_same last (interrupted ∷ es) s t same fits fits_t = finish_same last s t same
    loop_same last (ended ∷ es) s t same fits fits_t = finish_same last s t same
    loop_same last (failed e ∷ es) s t same fits fits_t = refl
    loop_same last (ticked (some e) ∷ es) s t same fits fits_t = refl
    loop_same last (ticked none ∷ es) s t same fits fits_t =
        let closed = laws.close_again s ∙ same in
        ap (λ c. written rep c (report_loop rep last es (rep.close s))) same
        ∙ ap (written rep (rep.close t)) (
            loop_same last es (rep.close s) t closed
              (laws.close-Fits (results_in es) s (rep.close s) (sym (laws.close_again s)) fits)
              fits_t)
    loop_same last (decoded r ∷ es) s t same fits fits_t =
        decoded_same last es s t r
          (λ s1 t1 f e same1.
            loop_same last es s1 t1 same1 (laws.add-Fits (results_in es) s s1 r fits f)
              (laws.add-Fits (results_in es) t t1 r fits_t e))
          same fits fits_t

    -- Whatever the ticks, interrupts and errors: at each tick `vegeta report` writes the report of the
    -- results so far, and at the end the report of all, as if it had not closed the report before; and
    -- it ends in the same way.
    pub report_loop-reported :
        (last : Option Text) (es : List Event) (s : rep.State)
        → Fits (results_in es) s
        → report_loop rep last es s ≡ reported last es s
    report_loop-reported last es s fits = loop_same last es s s refl fits fits
