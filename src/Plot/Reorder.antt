-- ===== src/Plot/Reorder.antt =====
-- lib/plot/plot.go, `labeledSeries.add`: what a plot holds of an attack whose results come in any order.
use vegeta.Prelude.{
  ℕ, suc, zero, ◌+◌, ◌^◌, ◌<◌, ◌≤◌, ◌≡◌, refl, inl, inr, Bool, true, false, ◌&&◌, ◌||◌, none, some,
  List, ◌∷◌, if◌then◌else◌, leb, ◌==◌, length, not, arith, ==_iff, Bool-cases, sym, ap, subst, ◌∙◌,
}
use vegeta.Prelude.Text.{Text, text_key, text_eq, text_eq_iff}
use vegeta.Prelude.Map.{nat_eq, lookup, lookup-assign}
use vegeta.Float.{Float64}
use vegeta.Results.{Result}
use vegeta.Plot
use vegeta.Plot.View.{has, IsAttack, point, shown, has_label, IsOpen, IsView, has_label-has, start}
use vegeta.Plot.Emit.{
  lookup-nothing, length-delete, not_received, not_buffered, found, next, next-IsOpen, emit-next,
}

module _ (fl : Float64) (tsz : Plot.Compressor (fl.F)) (label : Result → Text)
    (hits : ℕ → Result) where
  module _ (is_attack : IsAttack fl tsz label hits) where
    drain-IsView :
        (fuel : ℕ) (ks : List ℕ) (ls : Plot.LabeledSeries fl tsz)
        → length ls.buf ≤ fuel
        → IsOpen fl tsz label hits ks ls
        → ls.began ≡ (start fl tsz label hits)
        → (ls1 : Plot.LabeledSeries fl tsz) × (Plot.drain fl tsz fuel ls ≡ (ls1, none))
          × IsView fl tsz label hits ks ls1
    unfolding Plot.drain
    drain-IsView zero ks ls enough o began = (
      ls,
      refl,
      record {
        is_open = o;
        began = λ h. began;
        waiting = not_buffered fl tsz label hits ks ls o (lookup-nothing ls.seq ls.buf enough);
      },
    )
    drain-IsView (suc fuel) ks ls enough o began = elim (Bool-cases (has ls.seq ks)) [
      | inl here ↦
          let (ls1, e, view) =
            drain-IsView fuel ks (next fl tsz label hits ls)
              (omega (
                arith,
                length-delete ls.seq ls.buf (point fl tsz label hits ls.seq)
                    (found fl tsz label hits ks ls o here),
                enough,
              ))
              (next-IsOpen fl tsz label hits ks ls o here) began in
          (
            ls1,
            rw (Plot.drain, found fl tsz label hits ks ls o here)
                (subst
                  (λ x.
                    (elim (x.1) [ none ↦ Plot.drain fl tsz fuel x.0 | some f ↦ (x.0, some f) ])
                    ≡ (ls1, none))
                  (sym (emit-next fl tsz label hits is_attack ks ls o here began)) e),
            view,
          )
      | inr away ↦ (
        ls,
        rw (Plot.drain, o.buffered ls.seq, away) refl,
        record { is_open = o; began = λ h. began; waiting = away },
      )
    ]

    -- A label that no result had has the empty series.
    shown-nothing :
        (ks : List ℕ) (l : Text) (n : ℕ)
        → ((k : ℕ) → k < n → has k ks ≡ true)
        → has_label fl tsz label hits l ks ≡ false
        → shown fl tsz label hits l n ≡ Plot.new_time_series fl tsz (hits 0).attack l
    shown-nothing ks l zero all none_has = refl
    shown-nothing ks l (suc n) all none_has =
        let before = shown-nothing ks l n (λ k h. all k (omega (arith, h))) none_has in
        elim (Bool-cases (text_eq (label (hits n)) l)) [
          | inl e ↦
              let known = has_label-has fl tsz label hits n ks (all n (omega arith)) in
              absurd (
                cc (
                  subst (λ m. has_label fl tsz label hits m ks ≡ true)
                      ((text_eq_iff (label (hits n)) l).0 e) known,
                  none_has,
                ))
          | inr e ↦ rw e before
        ]

    lookup-with_series :
        (ks : List ℕ) (k : ℕ) (ls : Plot.LabeledSeries fl tsz) (l : Text)
        → IsOpen fl tsz label hits ks ls
        → lookup l (Plot.with_series fl tsz (hits k).attack (label (hits k)) ls.series) ≡ (
            if text_eq (label (hits k)) l || has_label fl tsz label hits l ks
            then some (shown fl tsz label hits l ls.seq)
            else none)
    unfolding Plot.with_series
    lookup-with_series ks k ls l o =
        elim (Bool-cases (has_label fl tsz label hits (label (hits k)) ks)) [
          | inl known ↦
              rw (Plot.with_series, o.emitted (label (hits k)), known, o.emitted l)
                (elim (Bool-cases (text_eq (label (hits k)) l)) [
                  | inl e ↦
                      rw
                        (
                          e,
                          subst (λ m. has_label fl tsz label hits m ks ≡ true)
                              ((text_eq_iff (label (hits k)) l).0 e) known,
                        )
                        refl
                  | inr e ↦ rw e refl
                ])
          | inr fresh ↦
              rw
                (
                  Plot.with_series,
                  o.emitted (label (hits k)),
                  fresh,
                  lookup-assign (label (hits k)) l
                      (Plot.new_time_series fl tsz (hits k).attack (label (hits k))) ls.series,
                  o.emitted l,
                )
                (elim (Bool-cases (text_eq (label (hits k)) l)) [
                  | inl e ↦
                      let same = (text_eq_iff (label (hits k)) l).0 e in
                      rw e (
                        ap some (
                          ap (λ a. Plot.new_time_series fl tsz a (label (hits k)))
                            (is_attack.named k)
                          ∙ sym (shown-nothing ks (label (hits k)) ls.seq o.received fresh)
                          ∙ ap (λ m. shown fl tsz label hits m ls.seq) same))
                  | inr e ↦ rw e refl
                ])
        ]

    buffer-IsOpen :
        (ks : List ℕ) (k : ℕ) (ls : Plot.LabeledSeries fl tsz)
        → IsOpen fl tsz label hits ks ls
        → ls.seq ≤ k
        → k + 1 < 2 ^ 64
        → IsOpen fl tsz label hits (k ∷ ks) (Plot.buffer fl tsz label (hits k) ls)
    unfolding Plot.buffer
    buffer-IsOpen ks k ls o ahead small = record {
      received = λ j h. ground (arith, o.received j h);
      buffered = λ j.
          lookup-assign (hits k).seq j (point fl tsz label hits k) ls.buf
          ∙ subst
              (λ n. (if n == j then some (point fl tsz label hits k) else lookup j ls.buf) ≡ (
                if has j (k ∷ ks) && leb ls.seq j then some (point fl tsz label hits j) else none))
              (sym (is_attack.numbered k)) (rw (o.buffered j) (ground (arith, ahead)));
      emitted = λ l. lookup-with_series ks k ls l o;
      small = λ j h. ground (arith, h, small, o.small j);
    }

    -- When the awaited result comes, `began` is the timestamp of the first.
    began-start :
        (ks : List ℕ) (ls : Plot.LabeledSeries fl tsz)
        → IsView fl tsz label hits ks ls
        → (if ls.seq == 0 then (hits ls.seq).timestamp else ls.began) ≡ (start fl tsz label hits)
    began-start ks ls view = elim (Bool-cases (ls.seq == 0)) [
      | inl e ↦ rw e (ap (λ n. (hits n).timestamp) ((==_iff ls.seq 0).0 e))
      | inr e ↦ rw e (view.began (ground (arith, e)))
    ]

    -- Adding a result that was not there gives no error and keeps the view: the plot then shows every
    -- result before the first one that is missing.
    pub add-IsView :
        (ks : List ℕ) (k : ℕ) (ls : Plot.LabeledSeries fl tsz)
        → IsView fl tsz label hits ks ls
        → has k ks ≡ false
        → k + 1 < 2 ^ 64
        → (ls1 : Plot.LabeledSeries fl tsz) × (Plot.add fl tsz label (hits k) ls ≡ (ls1, none))
          × IsView fl tsz label hits (k ∷ ks) ls1
    unfolding Plot.add
    add-IsView ks k ls view fresh small =
        let ahead = not_received fl tsz label hits ks k ls view.is_open fresh in
        let o = buffer-IsOpen ks k ls view.is_open ahead small in
        let buffered = Plot.buffer fl tsz label (hits k) ls in
        let awaited = record buffered {
          began = if ls.seq == 0 then (hits k).timestamp else ls.began;
        } in
        let step : (b : Bool)
            → ((k == ls.seq) ≡ b)
            → Plot.add fl tsz label (hits k) ls ≡ (
                if not b
                then (buffered, none)
                else Plot.drain fl tsz (length buffered.buf) awaited) =
          λ b e.
            ap
              (λ c.
                if not c then (buffered, none) else Plot.drain fl tsz (length buffered.buf) awaited)
              (ap (λ n. n == ls.seq) (is_attack.numbered k) ∙ e) in
        elim (Bool-cases (k == ls.seq)) [
          | inl e ↦
              let began =
                subst
                  (λ n.
                    (if ls.seq == 0 then (hits n).timestamp else ls.began)
                    ≡ (start fl tsz label hits))
                  (sym ((==_iff k ls.seq).0 e)) (began-start ks ls view) in
              let (ls1, drained, view1) =
                drain-IsView (length buffered.buf) (k ∷ ks) awaited (omega arith)
                  (record {
                    received = o.received;
                    buffered = o.buffered;
                    emitted = o.emitted;
                    small = o.small;
                  })
                  began in
              (ls1, step true e ∙ drained, view1)
          | inr e ↦ (
            buffered,
            step false e,
            record { is_open = o; began = view.began; waiting = ground (arith, e, view.waiting) },
          )
        ]
