-- ===== src/Reporters/Writing/Complete.antt =====
-- lib/reporters.go: a reporter that returns no error has printed its whole report.
use vegeta.Prelude.{
  ◌≡◌, refl, sym, ap, subst, ◌∙◌, ◌⊎◌, inl, inr, Option, none, some, List, [], ◌∷◌, ◌++◌, map,
  append-nil, append_assoc, Option-cases,
}
use vegeta.Prelude.Text.{Text}
use vegeta.Float.{Float64}
use vegeta.Metrics.{Estimator, Metrics, made}
use vegeta.Reporters.Writing

module _ {S L : Type 0} (print : L → S → S × Option Text) (flush : S → S × Option Text) where
  -- A writer that keeps what is printed, in its order, and nothing of what it refuses.
  pub record IsKept (log : S → List L) : Type 0 where
    pub accepted : (l : L) (s : S) → (print l s).1 ≡ none → log (print l s).0 ≡ log s ++ l ∷ []
    pub refused : (l : L) (s : S) (e : Text) → (print l s).1 ≡ some e → log (print l s).0 ≡ log s
    pub flushed : (s : S) → log (flush s).0 ≡ log s

module _ {S L : Type 0} (log : S → List L) where
  -- The log grows by the lines and there is no error; or there is one, and it grows by the first of them.
  pub record Printed (s : S) (lines : List L) (out : S × Option Text) : Type 0 where
    pub done : List L
    pub rest : List L
    pub whole : done ++ rest ≡ lines
    pub logged : log out.0 ≡ log s ++ done
    pub ended : ((out.1 ≡ none) × (rest ≡ [])) ⊎ ((e : Text) × (out.1 ≡ some e))

  whole_done : (done rest lines : List L) → done ++ rest ≡ lines → rest ≡ [] → done ≡ lines
  whole_done done rest lines e nil = sym (append-nil done) ∙ ap (λ r. done ++ r) (sym nil) ∙ e

  pub print_then-Printed :
      (s : S) (xs ys : List L) (out : S × Option Text) (next : S → S × Option Text)
      → Printed s xs out
      → ((s1 : S) → Printed s1 ys (next s1))
      → Printed s (xs ++ ys) (Writing.print_then out next)
  print_then-Printed s xs ys (s1, some e) next p h = record {
    done = p.done;
    rest = p.rest ++ ys;
    whole = sym (append_assoc p.done p.rest ys) ∙ ap (λ l. l ++ ys) p.whole;
    logged = p.logged;
    ended = inr (e, refl);
  }
  print_then-Printed s xs ys (s1, none) next p h = elim (p.ended) [
    | inr (e, f) ↦ absurd cc
    | inl (e, nil) ↦
        let q = h s1 in
        let all = whole_done p.done p.rest xs p.whole nil in
        record {
          done = p.done ++ q.done;
          rest = q.rest;
          whole =
              append_assoc p.done q.done q.rest
              ∙ ap (λ l. p.done ++ l) q.whole
              ∙ ap (λ l. l ++ ys) all;
          logged = q.logged ∙ ap (λ l. l ++ q.done) p.logged ∙ append_assoc (log s) p.done q.done;
          ended = q.ended;
        }
  ]

module _ {S L : Type 0} (print : L → S → S × Option Text) (flush : S → S × Option Text)
    (log : S → List L) (kept : IsKept print flush log) where
  print-Printed : (l : L) (s : S) → Printed log s (l ∷ []) (print l s)
  print-Printed l s = elim (Option-cases (print l s).1) [
    | inl e ↦ record {
      done = l ∷ [];
      rest = [];
      whole = refl;
      logged = kept.accepted l s e;
      ended = inl (e, refl);
    }
    | inr (f, e) ↦ record {
      done = [];
      rest = l ∷ [];
      whole = refl;
      logged = kept.refused l s f e ∙ sym (append-nil (log s));
      ended = inr (f, e);
    }
  ]

  flush-Printed : (s : S) → Printed log s [] (flush s)
  flush-Printed s = record {
    done = [];
    rest = [];
    whole = refl;
    logged = kept.flushed s ∙ sym (append-nil (log s));
    ended = elim (Option-cases (flush s).1) [ inl e ↦ inl (e, refl) | inr f ↦ inr f ];
  }

  print_each-Printed : (ls : List L) (s : S) → Printed log s ls (Writing.print_each print ls s)
  unfolding Writing.print_each
  print_each-Printed [] s = record {
    done = [];
    rest = [];
    whole = refl;
    logged = sym (append-nil (log s));
    ended = inl (refl, refl);
  }
  print_each-Printed (l ∷ ls) s =
      print_then-Printed log s (l ∷ []) ls (print l s) (Writing.print_each print ls)
        (print-Printed l s) (print_each-Printed ls)

  -- A line before a step, and lines before the flush.
  line-Printed :
      (l : L) (ys : List L) (next : S → S × Option Text)
      → ((s1 : S) → Printed log s1 ys (next s1))
      → (s : S) → Printed log s (l ∷ ys) (Writing.print_then (print l s) next)
  line-Printed l ys next h s =
      print_then-Printed log s (l ∷ []) ys (print l s) next (print-Printed l s) h

  last-Printed :
      (ls : List L) (s : S)
      → Printed log s ls (Writing.print_then (Writing.print_each print ls s) flush)
  last-Printed ls s =
      subst (λ all. Printed log s all (Writing.print_then (Writing.print_each print ls s) flush))
        (append-nil ls)
        (print_then-Printed log s ls [] (Writing.print_each print ls s) flush
          (print_each-Printed ls s) flush-Printed)

-- The lines of the text report, and those of the HDR report.
abbrev pub text_lines :
    (fl : Float64) (est : Estimator fl) → Metrics fl est → List (Writing.TextLine fl)
text_lines fl est m =
    Writing.summary (Writing.summary_of fl est m)
      ∷ map (Writing.status_line fl est) (Writing.status_rows fl est m)
    ++ Writing.error_heading ∷ map Writing.error_line (made m.errors)

abbrev pub quantile_lines :
    (fl : Float64) (est : Estimator fl) → Metrics fl est → List (Writing.QuantileLine fl)
quantile_lines fl est m = map Writing.quantile_line (Writing.hdr_rows fl est m Writing.logarithmic)

module _ (fl : Float64) (est : Estimator fl) {S : Type 0} (flush : S → S × Option Text) where
  -- Over a writer that keeps what it accepts and nothing else, the text report prints its lines in their
  -- order: the summary, the status codes, the heading and the errors. All of them are kept when the
  -- reporter returns no error, and the first of them when it returns one.
  pub text_reporter-Printed :
      (print : Writing.TextLine fl → S → S × Option Text) (log : S → List (Writing.TextLine fl))
      → IsKept print flush log
      → (m : Metrics fl est) (s : S)
      → Printed log s (text_lines fl est m) (Writing.text_reporter fl est flush print m s)
  unfolding Writing.text_reporter
  text_reporter-Printed print log kept m s =
      line-Printed print flush log kept (Writing.summary (Writing.summary_of fl est m))
        (map (Writing.status_line fl est) (Writing.status_rows fl est m)
          ++ Writing.error_heading ∷ map Writing.error_line (made m.errors))
        (λ s1. Writing.print_then (rows_printed s1) errors_printed)
        (λ s1.
          print_then-Printed log s1
            (map (Writing.status_line fl est) (Writing.status_rows fl est m))
            (Writing.error_heading ∷ map Writing.error_line (made m.errors)) (rows_printed s1)
            errors_printed
            (print_each-Printed print flush log kept
              (map (Writing.status_line fl est) (Writing.status_rows fl est m)) s1)
            (line-Printed print flush log kept Writing.error_heading
              (map Writing.error_line (made m.errors))
              (λ s3.
                Writing.print_then
                  (Writing.print_each print (map Writing.error_line (made m.errors)) s3) flush)
              (last-Printed print flush log kept (map Writing.error_line (made m.errors)))))
        s
    where
      rows_printed : S → S × Option Text
      rows_printed =
          Writing.print_each print (map (Writing.status_line fl est) (Writing.status_rows fl est m))

      errors_printed : S → S × Option Text
      errors_printed s2 = Writing.print_then (print Writing.error_heading s2) λ s3.
          Writing.print_then (Writing.print_each print (map Writing.error_line (made m.errors)) s3)
            flush

  pub hdr_reporter-Printed :
      (print : Writing.QuantileLine fl → S → S × Option Text)
      (log : S → List (Writing.QuantileLine fl))
      → IsKept print flush log
      → (m : Metrics fl est) (s : S)
      → Printed log s
          (Writing.quantile_heading ∷ quantile_lines fl est m)
          (Writing.hdr_reporter fl est flush print m s)
  unfolding Writing.hdr_reporter
  hdr_reporter-Printed print log kept m s =
      line-Printed print flush log kept Writing.quantile_heading (quantile_lines fl est m)
        (λ s1. Writing.print_then (Writing.print_each print (quantile_lines fl est m) s1) flush)
        (last-Printed print flush log kept (quantile_lines fl est m)) s
