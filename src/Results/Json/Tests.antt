-- ===== src/Results/Json/Tests.antt =====
-- Numbers of one digit as lines.
use vegeta.Prelude.{ℕ, ◌≡◌, refl, Option, none, some, [], ◌∷◌, arith}
use vegeta.Prelude.Text.{Text, codes}
use vegeta.Outcome.{Fallible, ok, err}
use vegeta.Results.Json.{empty_writer, encode_all, decode_all}
use vegeta.Results.Json.RoundTrip.{append_to, IsPlain, decode_all-encode_all}

abbrev marshal : ℕ → Text × Option Text
marshal n = (n ∷ [], none)

abbrev unmarshal : Text → Fallible Text ℕ
unmarshal (c ∷ s) = ok c
unmarshal [] = err (codes "empty")

seven-IsPlain : IsPlain marshal unmarshal 7
seven-IsPlain = record { no_error = refl; one_line = (omega arith, tt); read_back = refl }

nine-IsPlain : IsPlain marshal unmarshal 9
nine-IsPlain = record { no_error = refl; one_line = (omega arith, tt); read_back = refl }

decode_all-encode_all_example :
    let (jw, text, e) = encode_all marshal append_to (7 ∷ 9 ∷ []) empty_writer [] in
    (e ≡ none) × (decode_all unmarshal 3 text ≡ (7 ∷ 9 ∷ [], some none))
decode_all-encode_all_example =
    decode_all-encode_all marshal unmarshal (7 ∷ 9 ∷ []) (seven-IsPlain, (nine-IsPlain, tt))
