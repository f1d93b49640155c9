-- ===== src/Decimal.antt =====
-- `strconv`: decimal printing and parsing of unsigned and signed integers, in base 10.
pub mod RoundTrip
use vegeta.Prelude.{
  ℕ, zero, suc, ◌+◌, ◌-◌, ◌*◌, ◌/◌, ◌%◌, ◌^◌, ◌≡◌, Bool, true, false, ◌&&◌, Option, none, some,
  List, [], ◌∷◌, ltb, leb, ◌==◌, if◌then◌else◌,
}
use vegeta.Prelude.Int.{ℤ, pos, negsuc}
use vegeta.Prelude.Text.{Text}

-- The digits of `n` in front of `rest`, at most as many as the fuel.
unfoldable pub digits_onto : ℕ → ℕ → Text → Text
digits_onto zero n rest = rest
digits_onto (suc f) n rest =
    let more = digits_onto f (n / 10) ((b'0' + n % 10) ∷ rest) in
    if ltb n 10 then (b'0' + n) ∷ rest else more

-- `strconv.FormatUint(n, 10)`, and `strconv.Itoa` of a number that is not negative. A uint64 has at
-- most 20 digits.
unfoldable pub format_uint : ℕ → Text
format_uint n = digits_onto 20 n []

-- `strconv.FormatInt(n, 10)`.
unfoldable pub format_int : ℤ → Text
format_int (pos n) = format_uint n
format_int (negsuc n) = b'-' ∷ format_uint (suc n)

abbrev pub is_digit : ℕ → Bool
is_digit c = leb b'0' c && leb c b'9'

-- The value of the digits read on, unless one is no digit.
unfoldable pub digits_value : ℕ → Text → Option ℕ
digits_value acc [] = some acc
digits_value acc (c ∷ s) =
    let rest = digits_value (acc * 10 + (c - b'0')) s in if is_digit c then rest else none

-- `strconv.ParseUint(s, 10, bits)`: `none` for bad syntax and for a value out of range.
unfoldable pub parse_uint : ℕ → Text → Option ℕ
parse_uint bits [] = none
parse_uint bits (c ∷ s) = elim (digits_value 0 (c ∷ s)) [
  | none ↦ none
  | some n ↦ if ltb n (2 ^ bits) then some n else none
]

-- `strconv.ParseInt(s, 10, 64)`: the magnitude behind the sign.
abbrev pub sign_pos : Option ℕ → Option ℤ
sign_pos none = none
sign_pos (some n) = if ltb n (2 ^ 63) then some (pos n) else none

abbrev pub sign_neg : Option ℕ → Option ℤ
sign_neg none = none
sign_neg (some zero) = some (pos 0)
sign_neg (some (suc n)) = if ltb n (2 ^ 63) then some (negsuc n) else none

unfoldable pub parse_int : Text → Option ℤ
parse_int [] = none
parse_int (c ∷ s) =
    if c == b'-'
    then sign_neg (parse_uint 64 s)
    else if c == b'+'
    then sign_pos (parse_uint 64 s)
    else sign_pos (parse_uint 64 (c ∷ s))
