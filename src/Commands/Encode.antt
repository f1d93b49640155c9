-- ===== src/Commands/Encode.antt =====
-- encode.go: `vegeta encode` comes to its end and encodes every result.
use vegeta.Prelude.{
  ℕ, suc, zero, ◌+◌, ◌*◌, ◌%◌, ◌^◌, ◌<◌, ◌≤◌, ◌≡◌, refl, ap, sym, subst, ◌∙◌, inl, inr, Bool, true,
  Option, none, some, List, [], ◌∷◌, length, length-set, get_elem?, set, arith, if◌then◌else◌,
  Option-cases, Bool-cases, ◌==◌,
}
use vegeta.Outcome.{Fallible, ok, err}
use vegeta.Results.RoundRobin.{RoundRobin, decode_at, turns, round_robin}
use vegeta.Results.RoundRobin.Fair.{All-Stays, HasEnded, round_robin-LosesNothing}
use vegeta.Commands.{Ending, at_end, failed, encoded, encode_loop}

module _ {S E R : Type 0} (decode : S → S × Fallible E R) where
  -- A turn moves the count by one.
  turns-seq :
      (rounds : ℕ) (last : Option E) (s : RoundRobin S)
      → (turns decode rounds last s).0.seq ≤ s.seq + rounds
  unfolding turns
  turns-seq zero last s = omega arith
  turns-seq (suc rounds) last s =
      elim (Option-cases (decode_at decode (s.seq % length s.inputs) s.inputs)) [
        | inl e ↦ rw (turns, e) (omega arith)
        | inr ((inputs, ok r), e) ↦ rw (turns, e) (omega arith)
        | inr ((inputs, err f), e) ↦
            rw (turns, e)
              (omega (
                arith,
                turns-seq rounds (some f) (record { inputs = inputs; seq = (s.seq + 1) % 2 ^ 64 }),
              ))
      ]

  round_robin-seq : (s : RoundRobin S) → (round_robin decode s).0.seq ≤ s.seq + length s.inputs
  unfolding round_robin
  round_robin-seq s = elim (Bool-cases (length s.inputs == 1)) [
    | inl e ↦ elim (Option-cases (decode_at decode 0 s.inputs)) [
      | inl f ↦ rw (round_robin, e, f) (omega arith)
      | inr (_, f) ↦ rw (round_robin, e, f) (omega arith)
    ]
    | inr e ↦ rw (round_robin, e) (turns-seq (length s.inputs) none s)
  ]

suc_times : (k n : ℕ) → suc k * n ≡ n + k * n
suc_times k n = omega arith

-- The sum of the weights of a list.
abbrev pub total : {A : Type 0} → (A → ℕ) → List A → ℕ
total w [] = 0
total w (x ∷ xs) = w x + total w xs

total-set :
    {A : Type 0} (w : A → ℕ) (xs : List A) (i : ℕ) (x y : A)
    → get_elem? xs i ≡ some x
    → total w (set xs i y) + w x ≡ total w xs + w y
total-set w [] i x y e = absurd (cc e)
total-set w (z ∷ xs) zero x y e =
    let same : z ≡ x = cc in
    subst (λ u. w y + total w xs + w u ≡ w z + total w xs + w y) same (omega arith)
total-set w (z ∷ xs) (suc i) x y e = omega (arith, total-set w xs i x y e)

total-nothing :
    {A : Type 0} (w : A → ℕ) (xs : List A)
    → ((i : ℕ) → i < length xs → (x : A) × (get_elem? xs i ≡ some x) × (w x ≡ 0))
    → total w xs ≡ 0
total-nothing w [] all = refl
total-nothing w (y ∷ xs) all =
    let (x, at, z) = all 0 (omega arith) in
    let same : y ≡ x = cc in
    let here : w y ≡ 0 = subst (λ u. w u ≡ 0) (sym same) z in
    omega (arith, here, total-nothing w xs (λ i h. all (suc i) (omega (arith, h))))

module _ {S E R : Type 0} (decode : S → S × Fallible E R) where
  -- `w` says how much of something a decoder will still give, and `v` how much of it a result is.
  pub record IsWeight (w : S → ℕ) (v : R → ℕ) : Type 0 where
    pub gives : (x x1 : S) (r : R) → decode x ≡ (x1, ok r) → w x ≡ v r + w x1
    pub ends : (x x1 : S) (e : E) → decode x ≡ (x1, err e) → w x ≡ 0

  module _ (stays : (x x1 : S) (e : E) → decode x ≡ (x1, err e) → x1 ≡ x) (is_eof : E → Bool)
      (encode : R → Option E) (blank : R) where
    ended-nothing :
        (w : S → ℕ) (v : R → ℕ) (weight : IsWeight w v) (inputs : List S)
        → ((i : ℕ) → i < length inputs → HasEnded decode inputs i)
        → total w inputs ≡ 0
    ended-nothing w v weight inputs all =
        total-nothing w inputs (λ i h. let (x, e, at, d) = all i h in (x, at, weight.ends x x e d))

    -- How the loop goes on from what a call of the decoder gives.
    abbrev go_on : List R × Option (Ending E) → Option (Fallible E R) → List R × Option (Ending E)
    go_on rest got = elim got [
      | none ↦ encoded decode is_eof encode blank blank rest
      | some (ok r) ↦ encoded decode is_eof encode blank r rest
      | some (err e) ↦ ([], some (if is_eof e then at_end else failed e))
    ]

    -- A result that a decoder gives has left its weight.
    moved_total :
        (w : S → ℕ) (v : R → ℕ) (weight : IsWeight w v) (inputs moved : List S) (i : ℕ) (x x1 : S)
        (r : R)
        → get_elem? inputs i ≡ some x
        → decode x ≡ (x1, ok r)
        → moved ≡ set inputs i x1
        → total w inputs ≡ v r + total w moved
    moved_total w v weight inputs moved i x x1 r at d e =
        let there =
          subst (λ ys. total w ys + w x ≡ total w inputs + w x1) (sym e)
            (total-set w inputs i x x1 at) in
        omega (arith, there, weight.gives x x1 r d)

    -- Two or more files, whose decoders give io.EOF at their ends and stay there, are encoded to the
    -- end, if no result fails to be encoded, there is no signal, and the count of turns stays below
    -- 2^64: with more rounds than there are results left, the loop ends without an error. It has then
    -- encoded as much of everything as the files hold, whatever it is that the weights `w` and `v`
    -- count.
    pub encode_loop-ends :
        (left : S → ℕ) (w : S → ℕ) (v : R → ℕ)
        → IsWeight left (λ r. 1)
        → IsWeight w v
        → ((e : E) → is_eof e ≡ true)
        → ((r : R) → encode r ≡ none)
        → (fuel : ℕ) (s : RoundRobin S) → 1 < length s.inputs
        → total left s.inputs < fuel
        → s.seq + fuel * length s.inputs < 2 ^ 64
        → (rs : List R) × (encode_loop decode is_eof encode blank fuel s ≡ (rs, some at_end))
          × (total v rs ≡ total w s.inputs)
    unfolding encode_loop
    encode_loop-ends left w v left_weight weight eof encodes zero s two enough small =
        absurd (omega (arith, enough))
    encode_loop-ends left w v left_weight weight eof encodes (suc fuel) s two enough small =
        let n = length s.inputs in
        let shape : suc fuel * n ≡ n + fuel * n = suc_times fuel n in
        let out = round_robin decode s in
        elim (round_robin-LosesNothing decode s (All-Stays decode stays s.inputs) two
          (omega (arith, shape, small))) [
            | inl (i, x, x1, r, at, d, moved, got) ↦
                let len : length out.0.inputs ≡ n = ap length moved ∙ length-set s.inputs i x1 in
                let left_one =
                  moved_total left (λ q. 1) left_weight s.inputs out.0.inputs i x x1 r at d moved in
                let (rs, e, same) =
                  encode_loop-ends left w v left_weight weight eof encodes fuel out.0
                    (omega (arith, len, two)) (omega (arith, left_one, enough))
                    (subst (λ k. out.0.seq + fuel * k < 2 ^ 64) (sym len)
                      (omega (arith, shape, small, round_robin-seq decode s))) in
                (
                  r ∷ rs,
                  ap (go_on (encode_loop decode is_eof encode blank fuel out.0)) got
                      ∙ ap (encoded decode is_eof encode blank r) e
                      ∙ ap
                          (λ o. elim o [
                            | none ↦ (r ∷ rs, some at_end)
                            | some f ↦ ([], some (failed f))
                          ])
                          (encodes r),
                  omega (
                    arith,
                    same,
                    moved_total w v weight s.inputs out.0.inputs i x x1 r at d moved,
                  ),
                )
            | inr (all, same, (e, got)) ↦ (
              [],
              ap (go_on (encode_loop decode is_eof encode blank fuel out.0)) got
                  ∙ ap (λ b. ([], some (if b then at_end else failed e))) (eof e),
              sym (ended-nothing w v weight s.inputs all),
            )
          ]
