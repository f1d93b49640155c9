-- ===== src/Results/Json.antt =====
-- lib/results.go, `NewJSONEncoder` and `NewJSONDecoder`, and lib/targets.go, `NewJSONTargetEncoder`: values as
-- JSON, one in a line. The generated code for a value and the writer are parameters.
pub mod RoundTrip
mod Tests
use vegeta.Prelude.{
  ℕ, zero, suc, Bool, true, false, Option, none, some, List, [], ◌∷◌, ◌++◌, ◌==◌, if◌then◌else◌,
}
use vegeta.Prelude.Text.{Text}
use vegeta.Outcome.{Fallible, ok, err}

-- A `jwriter.Writer`: what it has buffered, and its error.
pub record JsonWriter : Type 0 where
  pub buffer : Text
  pub error : Option Text

abbrev pub empty_writer : JsonWriter
empty_writer = record { buffer = []; error = none }

-- `ReadBytes('\n')`: the bytes up to the newline with it, and those behind; none at the end, where what is left has no
-- newline.
unfoldable pub read_bytes : Text → Option (Text × Text)
read_bytes [] = none
read_bytes (c ∷ s) =
    let more = read_bytes s in
    if c == 10
    then some (c ∷ [], s)
    else elim more [ none ↦ none | some (line, rest) ↦ some (c ∷ line, rest) ]

module _ {R : Type 0} where
  module _ {W : Type 0} (marshal : R → Text × Option Text)
      (write : Text → W → W × Option Text) where
    -- The encoder. An error of the `jwriter.Writer` stays; `DumpTo` writes the buffer and empties it.
    unfoldable pub encode_line : R → JsonWriter → W → JsonWriter × W × Option Text
    encode_line r jw w =
        let (t, e) = marshal r in
        let jw1 : JsonWriter = record {
          buffer = jw.buffer ++ t;
          error = elim (jw.error) [ none ↦ e | some x ↦ some x ];
        } in
        let (w1, f) = write (jw1.buffer ++ 10 ∷ []) w in
        elim (jw1.error) [ some x ↦ (jw1, w, some x) | none ↦ (record jw1 { buffer = [] }, w1, f) ]

    -- Encoding one after another, up to the first error.
    unfoldable pub encode_all : List R → JsonWriter → W → JsonWriter × W × Option Text
    unfolding encode_line
    encode_all [] jw w = (jw, w, none)
    encode_all (r ∷ rs) jw w =
        let (jw1, w1, e) = encode_line r jw w in
        elim e [ none ↦ encode_all rs jw1 w1 | some x ↦ (jw1, w1, some x) ]

  module _ (unmarshal : Text → Fallible Text R) where
    -- The decoder, on what is left of its input; `none` stands for io.EOF.
    unfoldable pub decode_line : Text → Text × Fallible (Option Text) R
    unfolding read_bytes
    decode_line input = elim (read_bytes input) [
      | none ↦ ([], err none)
      | some (line, rest) ↦ elim (unmarshal line) [
        | err e ↦ (rest, err (some e))
        | ok r ↦ (rest, ok r)
      ]
    ]

    -- Decoding one after another, up to the first error, with the number of rounds as fuel.
    unfoldable pub decode_all : ℕ → Text → List R × Option (Option Text)
    unfolding decode_line
    decode_all zero input = ([], none)
    decode_all (suc fuel) input =
        let (rest, got) = decode_line input in
        let more = decode_all fuel rest in
        elim got [ err e ↦ ([], some e) | ok r ↦ (r ∷ more.0, more.1) ]
