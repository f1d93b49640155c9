-- ===== src/Pacer/Sine/Refine.antt =====
-- What the numerical search of `SinePacer.Pace` returns.
use vegeta.Prelude.{
  ℕ, zero, suc, ◌≤◌, ◌<◌, ◌≡◌, ◌⊎◌, inl, inr, refl, true, false, arith, Bool-cases,
}
use vegeta.Prelude.Int.{ℤ, pos}
use vegeta.Float.{Float64}
use vegeta.Pacer.Sine.{SinePacer, invalid, hits, is_close, improve, refine, first_guess, pace}

module _ (fl : Float64) (sp : SinePacer fl) (elapsed : ℤ) (n : ℕ) where
  -- The guess after `k` corrections.
  abbrev pub guesses : ℕ → ℤ → ℤ
  guesses zero guess = guess
  guesses (suc k) guess = guesses k (improve fl sp elapsed n guess)

  -- None of the first `k` guesses is close enough.
  abbrev pub NoneClose : ℕ → ℤ → Type 0
  NoneClose zero guess = Unit
  NoneClose (suc k) guess =
      (is_close fl sp elapsed n guess ≡ false) × NoneClose k (improve fl sp elapsed n guess)

  -- `wait` is the first guess that is close enough, or the one after `rounds` corrections if none
  -- before it is.
  pub record IsFirstClose (rounds : ℕ) (guess wait : ℤ) : Type 0 where
    pub tries : ℕ
    pub within : tries ≤ rounds
    pub is_guess : wait ≡ guesses tries guess
    pub close : (tries ≡ rounds) ⊎ (is_close fl sp elapsed n wait ≡ true)
    pub none_before : NoneClose tries guess

  refine-IsFirstClose :
      (rounds : ℕ) (guess : ℤ) → IsFirstClose rounds guess (refine fl sp elapsed n rounds guess)
  unfolding refine
  refine-IsFirstClose zero guess = record {
    tries = 0;
    within = omega arith;
    is_guess = refl;
    close = inl refl;
    none_before = tt;
  }
  refine-IsFirstClose (suc rounds) guess =
      let later = refine-IsFirstClose rounds (improve fl sp elapsed n guess) in
      elim (Bool-cases (is_close fl sp elapsed n guess)) [
        | inl good ↦ rw good (record {
          tries = 0;
          within = omega arith;
          is_guess = refl;
          close = inr good;
          none_before = tt;
        })
        | inr bad ↦ rw bad (record {
          tries = suc later.tries;
          within = omega (arith, later.within);
          is_guess = later.is_guess;
          close = ground (arith, later.close, later.is_guess);
          none_before = (bad, later.none_before);
        })
      ]

  -- `Pace` stops exactly an invalid configuration. A valid one that is behind schedule sends at once;
  -- one that is not waits for the first of the guesses whose error is below 1e-3 hits, or for the
  -- sixth guess if none of the first five is that close.
  pub pace-cases :
      ((invalid fl sp ≡ true) × (pace fl sp elapsed n ≡ (pos 0, true)))
      ⊎ ((invalid fl sp ≡ false)
          × (n < fl.to_uint64 (hits fl sp elapsed))
          × (pace fl sp elapsed n ≡ (pos 0, false)))
      ⊎ ((invalid fl sp ≡ false)
          × (fl.to_uint64 (hits fl sp elapsed) ≤ n)
          × ((pace fl sp elapsed n).1 ≡ false)
          × IsFirstClose 5 (first_guess fl sp elapsed n) (pace fl sp elapsed n).0)
  unfolding pace
  pace-cases = ground (arith, refine-IsFirstClose 5 (first_guess fl sp elapsed n))
