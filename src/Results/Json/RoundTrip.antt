-- ===== src/Results/Json/RoundTrip.antt =====
-- lib/results.go: what the JSON encoder writes, the JSON decoder reads.
use vegeta.Prelude.{
  suc, ◌≡◌, ◌≢◌, refl, ap, sym, ◌∙◌, Option, none, some, List, [], ◌∷◌, ◌++◌, All, length,
  append_assoc, append-nil, arith,
}
use vegeta.Prelude.Text.{Text}
use vegeta.Outcome.{Fallible, ok, err}
use vegeta.Results.Json.{
  JsonWriter, empty_writer, read_bytes, encode_line, encode_all, decode_line, decode_all,
}

-- A writer that takes everything.
abbrev pub append_to : Text → Text → Text × Option Text
append_to t w = (w ++ t, none)

abbrev pub OneLine : Text → Type 0
OneLine = All (λ c. c ≢ 10)

read_bytes-line : (t s : Text) → OneLine t → read_bytes (t ++ 10 ∷ s) ≡ some (t ++ 10 ∷ [], s)
unfolding read_bytes
read_bytes-line [] s h = refl
read_bytes-line (c ∷ t) s h = ground (arith, h, read_bytes-line t s h.1)

module _ {R : Type 0} (marshal : R → Text × Option Text) (unmarshal : Text → Fallible Text R) where
  -- The generated code writes the value as one line without an error, and reads it back.
  pub record IsPlain (r : R) : Type 0 where
    pub no_error : (marshal r).1 ≡ none
    pub one_line : OneLine (marshal r).0
    pub read_back : unmarshal ((marshal r).0 ++ 10 ∷ []) ≡ ok r

  abbrev pub lines_for : List R → Text
  lines_for [] = []
  lines_for (r ∷ rs) = (marshal r).0 ++ 10 ∷ lines_for rs

  encode_line-plain :
      (r : R) (w : Text)
      → IsPlain r
      → encode_line marshal append_to r empty_writer w
        ≡ (empty_writer, w ++ ((marshal r).0 ++ 10 ∷ []), none)
  unfolding encode_line
  encode_line-plain r w plain =
      rw (encode_line, plain.no_error)
        (ap (λ e. (emptied e, w ++ ((marshal r).0 ++ 10 ∷ []), none)) plain.no_error)
    where
      emptied : Option Text → JsonWriter
      emptied e = record { buffer = []; error = e }

  encode_all-lines :
      (rs : List R) (w : Text)
      → All IsPlain rs
      → encode_all marshal append_to rs empty_writer w ≡ (empty_writer, w ++ lines_for rs, none)
  unfolding encode_all
  encode_all-lines [] w h = ap (λ t. (empty_writer, t, none)) (sym (append-nil w))
  encode_all-lines (r ∷ rs) w h =
      let t = (marshal r).0 in
      ap
        (λ out. elim (out.2) [
          | none ↦ encode_all marshal append_to rs out.0 out.1
          | some x ↦ (out.0, out.1, some x)
        ])
        (encode_line-plain r w h.0)
      ∙ encode_all-lines rs (w ++ (t ++ 10 ∷ [])) h.1
      ∙ ap (λ text. (empty_writer, text, none))
          (append_assoc w (t ++ 10 ∷ []) (lines_for rs)
            ∙ ap (λ rest. w ++ rest) (append_assoc t (10 ∷ []) (lines_for rs)))

  decode_line-line :
      (r : R) (s : Text) → IsPlain r → decode_line unmarshal ((marshal r).0 ++ 10 ∷ s) ≡ (s, ok r)
  unfolding decode_line
  decode_line-line r s plain =
      rw (decode_line, read_bytes-line (marshal r).0 s plain.one_line, plain.read_back) refl

  decode_all-lines :
      (rs : List R)
      → All IsPlain rs
      → decode_all unmarshal (suc (length rs)) (lines_for rs) ≡ (rs, some none)
  unfolding decode_all decode_line read_bytes
  decode_all-lines [] h = refl
  decode_all-lines (r ∷ rs) h =
      ap
        (λ out. elim (out.1) [
          | err e ↦ ([], some e)
          | ok q ↦ (
            q ∷ (decode_all unmarshal (suc (length rs)) out.0).0,
            (decode_all unmarshal (suc (length rs)) out.0).1,
          )
        ])
        (decode_line-line r (lines_for rs) h.0)
      ∙ ap (λ out. (r ∷ out.0, out.1)) (decode_all-lines rs h.1)

  -- Of values that the generated code writes as one line without an error and reads back, the JSON
  -- decoder reads from what the JSON encoder has written all values in their order, and then comes to
  -- the end of its input.
  pub decode_all-encode_all :
      (rs : List R)
      → All IsPlain rs
      → let (jw, text, e) = encode_all marshal append_to rs empty_writer [] in
        (e ≡ none) × (decode_all unmarshal (suc (length rs)) text ≡ (rs, some none))
  decode_all-encode_all rs h =
      let written = encode_all-lines rs [] h in
      (
        ap (λ out. out.2) written,
        ap (λ out. decode_all unmarshal (suc (length rs)) out.1) written ∙ decode_all-lines rs h,
      )

-- An encoder that has failed once fails at each value from then on, and writes no more.
pub encode_line-IsSticky :
    {R W : Type 0} (marshal : R → Text × Option Text) (write : Text → W → W × Option Text)
    (jw : JsonWriter) (w : W) (x : Text) (r : R)
    → jw.error ≡ some x
    → let (jw1, w1, e) = encode_line marshal write r jw w in
      (e ≡ some x) × (w1 ≡ w) × (jw1.error ≡ some x)
unfolding encode_line
encode_line-IsSticky marshal write jw w x r failed =
    rw (encode_line, failed)
      (refl, refl, ap (λ o. elim o [ none ↦ (marshal r).1 | some y ↦ some y ]) failed)
