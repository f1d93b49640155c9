-- ===== src/Plot/Emit.antt =====
-- lib/plot/plot.go, `labeledSeries.add`: a round of the loop that finds its point.
use vegeta.Prelude.{
  ℕ, suc, zero, ◌+◌, ◌%◌, ◌^◌, ◌<◌, ◌≤◌, ◌≡◌, refl, ◌⊎◌, inl, inr, true, false, none, some, List,
  [], ◌∷◌, if◌then◌else◌, length, arith, le→ltb, Bool-cases, sym, ap, subst,
}
use vegeta.Prelude.Int.{◌≤ℤ◌, uint64}
use vegeta.Prelude.Text.{Text, text_key, text_eq, text_eq_iff}
use vegeta.Prelude.Map.{nat_eq, lookup, assign, delete, lookup-assign, lookup-delete}
use vegeta.Float.{Float64}
use vegeta.Results.{Result}
use vegeta.Plot
use vegeta.Plot.View.{
  sub_time-since, has, IsAttack, point, appended, shown, has_label, IsOpen, has_label-has, start,
}

subst-zero : (j : ℕ) → j ≤ 0 → j ≡ 0
subst-zero j le = omega arith

small_mod : (n : ℕ) → n < 2 ^ 64 → n % 2 ^ 64 ≡ n
small_mod n h = omega arith

plus_one : (n : ℕ) → n + 1 ≡ suc n
plus_one n = omega arith

lt_or_eq : (j k : ℕ) → j < k + 1 → (j < k) ⊎ (j ≡ k)
lt_or_eq j k h = ground arith

le_or_suc : (j k : ℕ) → j ≤ suc k → (j ≤ k) ⊎ (j ≡ suc k)
le_or_suc j k le = ground arith

module _ {ℓ} {A : Type ℓ} where
  length-delete-≤ : (k : ℕ) (m : List (ℕ × A)) → length (delete k m) ≤ length m
  unfolding delete
  length-delete-≤ k [] = omega arith
  length-delete-≤ k ((j, a) ∷ m) = ground (arith, length-delete-≤ k m)

  pub lookup-nothing : (k : ℕ) (m : List (ℕ × A)) → length m ≤ 0 → lookup k m ≡ none
  unfolding lookup
  lookup-nothing k [] h = refl
  lookup-nothing k (x ∷ m) h = absurd (omega (arith, h))

  -- A key that is there is deleted.
  pub length-delete :
      (k : ℕ) (m : List (ℕ × A)) (a : A) → lookup k m ≡ some a → length (delete k m) < length m
  unfolding delete lookup
  length-delete k [] a e = absurd cc
  length-delete k ((j, b) ∷ m) a e = ground (arith, length-delete-≤ k m, length-delete k m a)

module _ (fl : Float64) (tsz : Plot.Compressor (fl.F)) (label : Result → Text)
    (hits : ℕ → Result) where
  pub not_received :
      (ks : List ℕ) (k : ℕ) (ls : Plot.LabeledSeries fl tsz)
      → IsOpen fl tsz label hits ks ls
      → has k ks ≡ false
      → ls.seq ≤ k
  not_received ks k ls o fresh = ground (arith, fresh, o.received k)

  pub not_buffered :
      (ks : List ℕ) (ls : Plot.LabeledSeries fl tsz)
      → IsOpen fl tsz label hits ks ls
      → lookup ls.seq ls.buf ≡ none
      → has ls.seq ks ≡ false
  not_buffered ks ls o e = let at = o.buffered ls.seq in ground (arith, at, e)

  pub found :
      (ks : List ℕ) (ls : Plot.LabeledSeries fl tsz)
      → IsOpen fl tsz label hits ks ls
      → has ls.seq ks ≡ true
      → lookup ls.seq ls.buf ≡ some (point fl tsz label hits ls.seq)
  found ks ls o here = let at = o.buffered ls.seq in ground (arith, at, here)

  -- The state behind a round of the loop that finds its point.
  abbrev pub next : Plot.LabeledSeries fl tsz → Plot.LabeledSeries fl tsz
  next ls = record ls {
    buf = delete ls.seq ls.buf;
    series =
        assign (label (hits ls.seq))
          (appended fl tsz label hits ls.seq (shown fl tsz label hits (label (hits ls.seq)) ls.seq))
          ls.series;
    seq = (ls.seq + 1) % 2 ^ 64;
  }

  shown-next :
      (l : Text) (n : ℕ)
      → shown fl tsz label hits l (n + 1) ≡ (
          if text_eq (label (hits n)) l
          then appended fl tsz label hits n (shown fl tsz label hits l n)
          else shown fl tsz label hits l n)
  shown-next l n = ap (shown fl tsz label hits l) (plus_one n)

  pub next-IsOpen :
      (ks : List ℕ) (ls : Plot.LabeledSeries fl tsz)
      → IsOpen fl tsz label hits ks ls
      → has ls.seq ks ≡ true
      → IsOpen fl tsz label hits ks (next ls)
  next-IsOpen ks ls o here =
      let inc = small_mod (ls.seq + 1) (o.small ls.seq here) in
      record {
        received = λ k h. elim (lt_or_eq k ls.seq (omega (arith, inc, h))) [
          | inl lt ↦ o.received k lt
          | inr e ↦ subst (λ n. has n ks ≡ true) (sym e) here
        ];
        buffered = λ k. rw (inc, lookup-delete ls.seq k ls.buf, o.buffered k) (ground arith);
        emitted = λ l.
            rw
              (
                inc,
                lookup-assign (label (hits ls.seq)) l
                    (appended fl tsz label hits ls.seq
                      (shown fl tsz label hits (label (hits ls.seq)) ls.seq))
                    ls.series,
                o.emitted l,
                shown-next l ls.seq,
              )
              (elim (Bool-cases (text_eq (label (hits ls.seq)) l)) [
                | inl e ↦
                    let same = (text_eq_iff (label (hits ls.seq)) l).0 e in
                    let known = has_label-has fl tsz label hits ls.seq ks here in
                    rw (e, subst (λ m. has_label fl tsz label hits m ks ≡ true) same known)
                      (ap
                        (λ m.
                          some
                            (appended fl tsz label hits ls.seq (shown fl tsz label hits m ls.seq)))
                        same)
                | inr e ↦ rw e refl
              ]);
        small = o.small;
      }

  module _ (is_attack : IsAttack fl tsz label hits) where
    later : (j k : ℕ) → j ≤ k → (hits j).timestamp ≤ℤ (hits k).timestamp
    later j zero le = rw (subst-zero j le) (omega arith)
    later j (suc k) le = elim (le_or_suc j k le) [
      | inl below ↦ omega (arith, later j k below, is_attack.ordered k)
      | inr same ↦ rw same (omega arith)
    ]

    millis_mono :
        (j k : ℕ)
        → j ≤ k
        → Plot.millis fl tsz (start fl tsz label hits) (hits j).timestamp
          ≤ Plot.millis fl tsz (start fl tsz label hits) (hits k).timestamp
    unfolding uint64
    millis_mono j k le =
        rw
          (
            sub_time-since (start fl tsz label hits) (hits j).timestamp (later 0 j (omega arith))
                (is_attack.near j),
            sub_time-since (start fl tsz label hits) (hits k).timestamp (later 0 k (omega arith))
                (is_attack.near k),
          )
          (omega (
            arith,
            later j k le,
            later 0 j (omega arith),
            later 0 k (omega arith),
            is_attack.near j,
            is_attack.near k,
          ))

    prev-shown :
        (l : Text) (n k : ℕ)
        → n ≤ k
        → (shown fl tsz label hits l n).prev
          ≤ Plot.millis fl tsz (start fl tsz label hits) (hits k).timestamp
    prev-shown l zero k le = omega arith
    prev-shown l (suc n) k le = elim (Bool-cases (text_eq (label (hits n)) l)) [
      | inl e ↦ rw e (millis_mono n k (omega (arith, le)))
      | inr e ↦ rw e (prev-shown l n k (omega (arith, le)))
    ]

    pub emit-next :
        (ks : List ℕ) (ls : Plot.LabeledSeries fl tsz)
        → IsOpen fl tsz label hits ks ls
        → has ls.seq ks ≡ true
        → ls.began ≡ (start fl tsz label hits)
        → Plot.emit fl tsz
            (point fl tsz label hits ls.seq)
            (record ls { buf = delete ls.seq ls.buf })
          ≡ (next ls, none)
    unfolding Plot.emit Plot.push_point
    emit-next ks ls o here began =
        rw
          (
            Plot.emit,
            o.emitted (label (hits ls.seq)),
            has_label-has fl tsz label hits ls.seq ks here,
            began,
            Plot.push_point,
            le→ltb (Plot.millis fl tsz (start fl tsz label hits) (hits ls.seq).timestamp)
                (shown fl tsz label hits (label (hits ls.seq)) ls.seq).prev
                (prev-shown (label (hits ls.seq)) ls.seq ls.seq (omega arith)),
          )
          (ap (λ b. (record (next ls) { began = b }, none)) began)
