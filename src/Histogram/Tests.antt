-- ===== src/Histogram/Tests.antt =====
-- A histogram of two buckets, and the text that it is read from.
use vegeta.Prelude.{◌*◌, ◌≡◌, refl, Option, none, some, [], ◌∷◌}
use vegeta.Prelude.Int.{ℤ, pos}
use vegeta.Prelude.Text.{Text, codes, trim_space, split}
use vegeta.Outcome.{returns, panics, ok}
use vegeta.Decimal.{format_uint, format_int, digits_onto}
use vegeta.Histogram.Json.{marshal_json}
use vegeta.Histogram.{Histogram, unmarshal_text}

abbrev two : Histogram
two = record { buckets = pos 0 ∷ pos 20 ∷ []; counts = 1 ∷ 1 ∷ []; total = 2 }

-- Durations of one digit, in seconds.
abbrev parse_digits : Text → Option ℤ
parse_digits (c ∷ []) = some (pos (c * 1_000_000_000))
parse_digits _ = none

read_buckets :
    unmarshal_text parse_digits [] (codes "[1,2]")
    ≡ ok (pos 0 ∷ pos 49_000_000_000 ∷ pos 50_000_000_000 ∷ [])
unfolding unmarshal_text split trim_space
read_buckets = refl

marshal_two : marshal_json two ≡ returns (codes "{\"0\": 1, \"20\": 1}")
unfolding marshal_json format_uint format_int digits_onto
marshal_two = refl

-- Before the first result the counts are nil.
marshal_nil : marshal_json (record two { counts = [] }) ≡ panics
unfolding marshal_json
marshal_nil = refl
