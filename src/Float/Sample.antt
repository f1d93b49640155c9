-- ===== src/Float/Sample.antt =====
-- Numbers for the tests in place of floats: fixed-point numbers with nine decimals.
use vegeta.Prelude.{◌*◌, ◌+◌, ◌/◌}
use vegeta.Prelude.Int.{
  ℤ, pos, ◌+ℤ◌, ◌-ℤ◌, ◌*ℤ◌, ◌/ℤ◌, ltb_ℤ, leb_ℤ, pos_part, neg_part, int64, uint64,
}
use vegeta.Float.{Float64, second}

abbrev one : ℤ
one = pos second

unfoldable pub fixed : Float64
unfolding ◌+ℤ◌ ◌-ℤ◌ ◌*ℤ◌ ◌/ℤ◌ int64 uint64
fixed = record {
  F = ℤ;
  add = ◌+ℤ◌;
  sub = ◌-ℤ◌;
  mul = λ a b. (a *ℤ b) /ℤ one;
  div = λ a b. (a *ℤ one) /ℤ b;
  lt = ltb_ℤ;
  le = leb_ℤ;
  of_int = λ n. n *ℤ one;
  of_uint = λ n. pos (n * second);
  thousandth = pos 1_000_000;
  to_int64 = λ a. int64 (a /ℤ one);
  to_uint64 = λ a. uint64 (a /ℤ one);
  round = λ a. ((a +ℤ pos 500_000_000) /ℤ one) *ℤ one;
  abs = λ a. pos (pos_part a + neg_part a);
  pow = λ a b. pos (pos_part a * pos_part a / second);
  sin = λ a. pos 0;
  cos = λ a. one;
  pi = pos 3_141_592_653;
}
