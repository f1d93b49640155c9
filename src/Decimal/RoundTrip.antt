-- ===== src/Decimal/RoundTrip.antt =====
-- What is printed parses back.
use mathlib.Core.Option.{some-injective}
use native.Mathlib.Nat.{pow-suc}
use vegeta.Prelude.{
  ℕ, zero, suc, ◌+◌, ◌/◌, ◌%◌, ◌^◌, ◌≡◌, ◌<◌, ◌≤◌, refl, some, [], ◌∷◌, ltb, arith, Bool-cases, inl,
  inr, sym, ◌∙◌,
}
use vegeta.Prelude.Int.{ℤ, pos, negsuc, IsInt64}
use vegeta.Prelude.Text.{Text}
use vegeta.Decimal.{digits_onto, format_uint, format_int, digits_value, parse_uint, parse_int}

-- Reading the digits of `n` from a value `acc` goes on with `rest` from a value that has `n` behind
-- `acc`; from 0 that is `n`.
digits_value-digits_onto :
    (f n : ℕ) (rest : Text)
    → n < 10 ^ f
    → 0 < f
    → digits_value 0 (digits_onto f n rest) ≡ digits_value n rest
unfolding digits_value digits_onto
digits_value-digits_onto zero n rest lt p = elim p [ ]
digits_value-digits_onto (suc zero) n rest lt p = ground arith
digits_value-digits_onto (suc (suc f)) n rest lt p =
    ground (arith, digits_value-digits_onto (suc f) (n / 10) ((b'0' + n % 10) ∷ rest), shorter)
  where
    shorter : n / 10 < 10 ^ suc f
    shorter = let e = pow-suc 10 (suc f) in omega (arith, e)

-- A text that begins with no sign, and is not empty.
abbrev StartsUnsigned : Text → Type 0
StartsUnsigned [] = ⊥
StartsUnsigned (c ∷ s) = b'0' ≤ c

StartsUnsigned-onto :
    (f n : ℕ) (rest : Text) → StartsUnsigned rest → StartsUnsigned (digits_onto f n rest)
unfolding digits_onto
StartsUnsigned-onto zero n rest h = h
StartsUnsigned-onto (suc f) n rest h = elim (Bool-cases (ltb n 10)) [
  | inl last ↦ rw last (omega arith)
  | inr more ↦ rw more (StartsUnsigned-onto f (n / 10) ((b'0' + n % 10) ∷ rest) (omega arith))
]

StartsUnsigned-digits : (f n : ℕ) (rest : Text) → StartsUnsigned (digits_onto (suc f) n rest)
unfolding digits_onto
StartsUnsigned-digits f n rest = elim (Bool-cases (ltb n 10)) [
  | inl last ↦ rw last (omega arith)
  | inr more ↦ rw more (StartsUnsigned-onto f (n / 10) ((b'0' + n % 10) ∷ rest) (omega arith))
]

StartsUnsigned-format_uint : (n : ℕ) → StartsUnsigned (format_uint n)
unfolding format_uint
StartsUnsigned-format_uint n = StartsUnsigned-digits 19 n []

digits_value-format_uint : (n : ℕ) → n < 2 ^ 64 → digits_value 0 (format_uint n) ≡ some n
unfolding format_uint
digits_value-format_uint n lt =
    digits_value-digits_onto 20 n [] (omega arith) (omega arith) ∙ unfold digits_value in refl

parse_uint_value :
    (bits n : ℕ) (t : Text)
    → StartsUnsigned t
    → digits_value 0 t ≡ some n
    → n < 2 ^ bits
    → parse_uint bits t ≡ some n
unfolding parse_uint
parse_uint_value bits n [] h e lt = absurd h
parse_uint_value bits n (c ∷ s) h e lt = rw (e, parse_uint) (ground arith)

-- A number below 2^bits, for at most 64 bits, is parsed back from what is printed.
pub parse_uint-format_uint :
    (bits n : ℕ) → n < 2 ^ bits → n < 2 ^ 64 → parse_uint bits (format_uint n) ≡ some n
parse_uint-format_uint bits n lt le =
    parse_uint_value bits n (format_uint n) (StartsUnsigned-format_uint n)
      (digits_value-format_uint n le) lt

parse_int_unsigned :
    (n : ℕ) (t : Text)
    → StartsUnsigned t
    → parse_uint 64 t ≡ some n
    → n < 2 ^ 63
    → parse_int t ≡ some (pos n)
unfolding parse_int
parse_int_unsigned n [] h e lt = absurd h
parse_int_unsigned n (c ∷ s) h e lt = ground arith

-- Every int64 is parsed back from what is printed.
pub parse_int-format_int : (a : ℤ) → IsInt64 a → parse_int (format_int a) ≡ some a
unfolding format_int parse_int
parse_int-format_int (pos n) h =
    parse_int_unsigned n (format_uint n) (StartsUnsigned-format_uint n)
      (parse_uint-format_uint 64 n (omega (arith, h.above)) (omega (arith, h.above))) h.above
parse_int-format_int (negsuc n) h = ground (arith, parse_uint-format_uint 64 (suc n))

-- Two numbers that fit a uint64 are printed alike only if they are equal.
pub format_uint_inj : (m n : ℕ) → m < 2 ^ 64 → n < 2 ^ 64 → format_uint m ≡ format_uint n → m ≡ n
format_uint_inj m n hm hn e =
    some-injective m n (sym (digits_value-format_uint m hm) ∙ rw e (digits_value-format_uint n hn))
