-- ===== src/Results/Detect.antt =====
-- lib/results.go, `DecoderFor`: the decoder that an input is read with. A factory of decoders stands for
-- what its decoder does with a first result: a parameter.
use vegeta.Prelude.{
  ℕ, zero, suc, ◌-◌, ◌≡◌, refl, ap, ◌∙◌, inl, inr, Bool, Option, none, some, List, [], ◌∷◌, ◌++◌,
  if◌then◌else◌, length, take, drop, Bool-cases, append_assoc,
}
use vegeta.Prelude.Text.{Text}

-- What is left of the reader, and what the tee has kept of what was read.
pub record Tee : Type 0 where
  pub buf : Text
  pub rest : Text

-- Reading so many bytes of `io.MultiReader(bytes.NewReader(buf.Bytes()), io.TeeReader(r, &buf))`: what is
-- kept comes first, and what goes beyond it is kept too.
unfoldable pub read_on : ℕ → Tee → Tee
read_on n t =
    let more = n - length t.buf in
    record { buf = t.buf ++ take more t.rest; rest = drop more t.rest }

-- Of a factory: how many bytes its decoder reads of an input to decode a first result, and whether it
-- decodes one.
module _ {D : Type 0} (trial : D → Text → ℕ × Bool) where
  -- The loop of `DecoderFor`: the factory that succeeds, and what its decoder will read.
  unfoldable pub detect : List D → Tee → Option (D × Text)
  unfolding read_on
  detect [] t = none
  detect (dec ∷ decs) t =
      let (n, decoded) = trial dec (t.buf ++ t.rest) in
      let t1 = read_on n t in
      let rest = detect decs t1 in if decoded then some (dec, t1.buf ++ t1.rest) else rest

  -- `DecoderFor`.
  unfoldable pub decoder_for : List D → Text → Option (D × Text)
  unfolding detect
  decoder_for decs input = detect decs (record { buf = []; rest = input })

  -- The first factory whose decoder decodes a result of the input.
  abbrev pub first_success : Text → List D → Option D
  first_success input [] = none
  first_success input (dec ∷ decs) =
      if (trial dec input).1 then some dec else first_success input decs

  take-drop : {A : Type 0} (n : ℕ) (xs : List A) → take n xs ++ drop n xs ≡ xs
  take-drop zero xs = refl
  take-drop (suc n) [] = refl
  take-drop (suc n) (x ∷ xs) = ap (λ ys. x ∷ ys) (take-drop n xs)

  -- Reading loses nothing.
  read_on-whole : (n : ℕ) (t : Tee) → (read_on n t).buf ++ (read_on n t).rest ≡ t.buf ++ t.rest
  unfolding read_on
  read_on-whole n t =
      let more = n - length t.buf in
      append_assoc t.buf (take more t.rest) (drop more t.rest)
      ∙ ap (λ r. t.buf ++ r) (take-drop more t.rest)

  detect_lem :
      (decs : List D) (t : Tee) (input : Text)
      → t.buf ++ t.rest ≡ input
      → detect decs t
        ≡ elim (first_success input decs) [ none ↦ none | some dec ↦ some (dec, input) ]
  unfolding detect
  detect_lem [] t input e = refl
  detect_lem (dec ∷ decs) t input e = elim (Bool-cases (trial dec input).1) [
    | inl f ↦ rw (detect, e, f, read_on-whole (trial dec input).0 t, e) refl
    | inr f ↦
        rw (detect, e, f)
          (detect_lem decs (read_on (trial dec input).0 t) input
            (read_on-whole (trial dec input).0 t ∙ e))
  ]

  -- `DecoderFor` gives the decoder of the first factory whose decoder decodes a result from the whole
  -- input, however much the ones before it have read; the decoder will read the whole input from its
  -- beginning. Without such a factory it gives none.
  pub decoder_for-first_success :
      (decs : List D) (input : Text)
      → decoder_for decs input
        ≡ elim (first_success input decs) [ none ↦ none | some dec ↦ some (dec, input) ]
  unfolding decoder_for
  decoder_for-first_success decs input =
      detect_lem decs (record { buf = []; rest = input }) input refl
