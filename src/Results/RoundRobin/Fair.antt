-- ===== src/Results/RoundRobin/Fair.antt =====
-- No result is lost between the decoders of `NewRoundRobinDecoder`.
use native.Mathlib.Nat.{
  add-mod-mod, add-mod_right, mul-add-mod_self_left, div-add-mod, mod-lt, mod-eq_of_lt,
}
use vegeta.Prelude.{
  ℕ, zero, suc, ◌+◌, ◌-◌, ◌*◌, ◌/◌, ◌%◌, ◌^◌, ◌<◌, ◌==◌, ◌≡◌, refl, ap, sym, subst, ◌∙◌, ◌⊎◌, inl,
  inr, false, Option, none, some, List, [], ◌∷◌, length, get_elem?, get_elem?-below, set, arith,
  All,
}
use vegeta.Outcome.{Fallible, ok, err}
use vegeta.Results.RoundRobin.{RoundRobin, decode_at, turns, round_robin}

-- From any start, one of `n` consecutive turns comes to `i`.
mod_cover : (a n i : ℕ) → i < n → (t : ℕ) × (t < n) × ((a + t) % n ≡ i)
mod_cover a n i h =
    let pos_n : 0 < n = omega (arith, h) in
    let far = i + (n - a % n) in
    let shape : a + far ≡ n * (a / n) + (i + n) = omega (arith, div-add-mod a n, mod-lt a pos_n) in
    (
      far % n,
      mod-lt far pos_n,
      add-mod-mod a far n
          ∙ ap (λ x. x % n) shape
          ∙ mul-add-mod_self_left n (a / n) (i + n)
          ∙ add-mod_right i n
          ∙ mod-eq_of_lt h,
    )

set_same {ℓ} :
    {A : Type ℓ} (xs : List A) (i : ℕ) (x : A) → get_elem? xs i ≡ some x → set xs i x ≡ xs
set_same [] i x e = refl
set_same (y ∷ xs) zero x e = cc
set_same (y ∷ xs) (suc i) x e = ap (λ t. y ∷ t) (set_same xs i x e)

All-at :
    {A : Type 0} (P : A → Type 0) (xs : List A) (i : ℕ) {x : A}
    → All P xs
    → get_elem? xs i ≡ some x
    → P x
All-at P [] i h e = absurd (cc)
All-at P (y ∷ xs) zero {x} h e = let same : y ≡ x = cc in subst P same h.0
All-at P (y ∷ xs) (suc i) h e = All-at P xs i h.1 e

pair_cases :
    {S E R : Type 0} (p : S × Fallible E R)
    → ((x : S) × ((r : R) × (p ≡ (x, ok r)))) ⊎ ((x : S) × ((e : E) × (p ≡ (x, err e))))
pair_cases (x, ok r) = inl (x, (r, refl))
pair_cases (x, err e) = inr (x, (e, refl))

module _ {S E R : Type 0} (decode : S → S × Fallible E R) where
  -- A decoder that gives a result from here, or an error and stays here, as at the end of a file.
  abbrev pub Stays : S → Type 0
  Stays x = (x1 : S) (e : E) → decode x ≡ (x1, err e) → x1 ≡ x

  pub All-Stays :
      (stays : (x x1 : S) (e : E) → decode x ≡ (x1, err e) → x1 ≡ x) (xs : List S) → All Stays xs
  All-Stays stays [] = tt
  All-Stays stays (x ∷ xs) = (stays x, All-Stays stays xs)

  abbrev pub HasEnded : List S → ℕ → Type 0
  HasEnded inputs i = (x : S) × (e : E) × (get_elem? inputs i ≡ some x) × (decode x ≡ (x, err e))

  -- A result came from one decoder, and no other one moved.
  abbrev pub Gave : List S → RoundRobin S × Option (Fallible E R) → Type 0
  Gave inputs out =
      (i : ℕ) × (x : S) × (x1 : S) × (r : R) × (get_elem? inputs i ≡ some x)
      × (decode x ≡ (x1, ok r))
      × (out.0.inputs ≡ set inputs i x1)
      × (out.1 ≡ some (ok r))

  -- An error came back, no decoder moved, and all decoders have ended.
  abbrev pub AllEnded : List S → RoundRobin S × Option (Fallible E R) → Type 0
  AllEnded inputs out =
      ((i : ℕ) → i < length inputs → HasEnded inputs i)
      × (out.0.inputs ≡ inputs)
      × ((e : E) × (out.1 ≡ some (err e)))

  -- The decoders of these turns have ended; the error is there unless there was no turn.
  abbrev TurnsEnded : ℕ → RoundRobin S → Option E → RoundRobin S × Option (Fallible E R) → Type 0
  TurnsEnded rounds s last out =
      ((t : ℕ) → t < rounds → HasEnded s.inputs ((s.seq + t) % length s.inputs))
      × (out.0.inputs ≡ s.inputs)
      × (((rounds ≡ 0) × (last ≡ none)) ⊎ ((e : E) × (out.1 ≡ some (err e))))

  abbrev next_turn : RoundRobin S → RoundRobin S
  next_turn s = record s { seq = s.seq + 1 }

  abbrev moved : List S → ℕ → RoundRobin S
  moved inputs seq = record { inputs = inputs; seq = seq }

  -- What a turn comes to, from the decoder's answer and the state after it.
  abbrev turn_result : ℕ → RoundRobin S → Fallible E R → RoundRobin S × Option (Fallible E R)
  turn_result rounds s (ok r) = (s, some (ok r))
  turn_result rounds s (err e) = turns decode rounds (some e) s

  decode_at-found :
      (i : ℕ) (inputs : List S) (x x1 : S) (got : Fallible E R)
      → get_elem? inputs i ≡ some x
      → decode x ≡ (x1, got)
      → decode_at decode i inputs ≡ some (set inputs i x1, got)
  unfolding decode_at
  decode_at-found i inputs x x1 got at d =
      ap (λ o. elim o [ none ↦ none | some y ↦ some (set inputs i (decode y).0, (decode y).1) ]) at
      ∙ ap (λ p. some (set inputs i p.0, p.1)) d

  turns-step :
      (rounds : ℕ) (last : Option E) (s : RoundRobin S) (x x1 : S) (got : Fallible E R)
      → get_elem? s.inputs (s.seq % length s.inputs) ≡ some x
      → decode x ≡ (x1, got)
      → s.seq + 1 < 2 ^ 64
      → turns decode (suc rounds) last s
        ≡ turn_result rounds (moved (set s.inputs (s.seq % length s.inputs) x1) (s.seq + 1)) got
  unfolding turns
  turns-step rounds last s x x1 got at d small =
      ap
        (λ o. elim o [
          | none ↦ (s, none)
          | some p ↦ turn_result rounds (moved p.0 ((s.seq + 1) % 2 ^ 64)) p.1
        ])
        (decode_at-found (s.seq % length s.inputs) s.inputs x x1 got at d)
      ∙ ap (λ q. turn_result rounds (moved (set s.inputs (s.seq % length s.inputs) x1) q) got)
          (mod-eq_of_lt small)

  -- A decoder that has ended takes its turn without a trace.
  turns-ended :
      (rounds : ℕ) (last : Option E) (s : RoundRobin S) (x : S) (e : E)
      → get_elem? s.inputs (s.seq % length s.inputs) ≡ some x
      → decode x ≡ (x, err e)
      → s.seq + 1 < 2 ^ 64
      → turns decode (suc rounds) last s ≡ turns decode rounds (some e) (next_turn s)
  turns-ended rounds last s x e at d small =
      turns-step rounds last s x x (err e) at d small
      ∙ ap (λ inputs. turns decode rounds (some e) (moved inputs (s.seq + 1)))
          (set_same s.inputs (s.seq % length s.inputs) x at)

  also_first :
      (rounds : ℕ) (s : RoundRobin S) (x : S) (e : E)
      → get_elem? s.inputs (s.seq % length s.inputs) ≡ some x
      → decode x ≡ (x, err e)
      → ((t : ℕ) → t < rounds → HasEnded s.inputs ((s.seq + 1 + t) % length s.inputs))
      → (t : ℕ) → t < suc rounds
      → HasEnded s.inputs ((s.seq + t) % length s.inputs)
  also_first rounds s x e at d all zero h =
      subst (λ k. HasEnded s.inputs (k % length s.inputs)) (omega arith) (x, e, at, d)
  also_first rounds s x e at d all (suc t) h =
      subst (λ k. HasEnded s.inputs (k % length s.inputs)) (omega arith) (all t (omega (arith, h)))

  later :
      (rounds : ℕ) (last : Option E) (s : RoundRobin S) (x : S) (e : E)
      → get_elem? s.inputs (s.seq % length s.inputs) ≡ some x
      → decode x ≡ (x, err e)
      → (out : RoundRobin S × Option (Fallible E R))
      → Gave s.inputs out ⊎ TurnsEnded rounds (next_turn s) (some e) out
      → Gave s.inputs out ⊎ TurnsEnded (suc rounds) s last out
  later rounds last s x e at d out (inl gave) = inl gave
  later rounds last s x e at d out (inr (all, same, inl (z, clash))) = absurd (cc)
  later rounds last s x e at d out (inr (all, same, inr found)) =
      inr (also_first rounds s x e at d all, same, inr found)

  turns-cases :
      (rounds : ℕ) (last : Option E) (s : RoundRobin S)
      → All Stays s.inputs
      → 0 < length s.inputs
      → s.seq + rounds < 2 ^ 64
      → Gave s.inputs (turns decode rounds last s)
        ⊎ TurnsEnded rounds s last (turns decode rounds last s)
  unfolding turns
  turns-cases zero none s stay some_input small =
      inr (λ t h. absurd (omega (arith, h)), refl, inl (refl, refl))
  turns-cases zero (some e) s stay some_input small =
      inr (λ t h. absurd (omega (arith, h)), refl, inr (e, refl))
  turns-cases (suc rounds) last s stay some_input small =
      let i = s.seq % length s.inputs in
      let (x, at) = get_elem?-below s.inputs i (mod-lt s.seq some_input) in
      let below : s.seq + 1 < 2 ^ 64 = omega (arith, small) in
      elim (pair_cases (decode x)) [
        | inl (x1, (r, d)) ↦
            let e = turns-step rounds last s x x1 (ok r) at d below in
            inl (i, x, x1, r, at, d, ap (λ o. o.0.inputs) e, ap (λ o. o.1) e)
        | inr (x1, (e, d)) ↦
            let d1 =
              subst (λ y. decode x ≡ (y, err e)) (All-at Stays s.inputs i stay at x1 e d) d in
            let step = turns-ended rounds last s x e at d1 below in
            subst (λ o. Gave s.inputs o ⊎ TurnsEnded (suc rounds) s last o) (sym step)
              (later rounds last s x e at d1 (turns decode rounds (some e) (next_turn s))
                (turns-cases rounds (some e) (next_turn s) stay some_input (omega (arith, small))))
      ]

  -- With two decoders or more, each of which from where it is gives a result, or an error and stays, as
  -- at the end of its file but not at a malformed row that a decoder skips, and with the count of turns in
  -- range, a call gives a result that one decoder gave, while the others stay; or it gives an error, and
  -- then every decoder gives an error and none has moved.
  pub round_robin-LosesNothing :
      (s : RoundRobin S)
      → All Stays s.inputs
      → 1 < length s.inputs
      → s.seq + length s.inputs < 2 ^ 64
      → Gave s.inputs (round_robin decode s) ⊎ AllEnded s.inputs (round_robin decode s)
  unfolding round_robin
  round_robin-LosesNothing s stay two small =
      let many : (length s.inputs == 1) ≡ false = ground (arith, two) in
      let out = turns decode (length s.inputs) none s in
      let opened : round_robin decode s ≡ out = rw (round_robin, many) in
      subst (λ o. Gave s.inputs o ⊎ AllEnded s.inputs o) (sym opened)
        (elim (turns-cases (length s.inputs) none s stay (omega (arith, two)) small) [
          | inl gave ↦ inl gave
          | inr (all, same, inl (z, _)) ↦ absurd (omega (arith, z, two))
          | inr (all, same, inr found) ↦ inr (
            λ i h.
                let (t, lt, e) = mod_cover s.seq (length s.inputs) i h in
                subst (HasEnded s.inputs) e (all t lt),
            same,
            found,
          )
        ])
