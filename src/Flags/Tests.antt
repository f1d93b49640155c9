-- ===== src/Flags/Tests.antt =====
-- A header, rates with and without a duration, and a limit.
use vegeta.Prelude.{inl, inr, ℕ, ◌≡◌, refl, arith, Option, some, length}
use vegeta.Prelude.Int.{ℤ, pos}
use vegeta.Prelude.Text.{Text, codes, text_eq, trim_left, trim_right, is_space, has_prefix}
use vegeta.Outcome.{ok}
use vegeta.Targets.Http.Written.{IsHeader}
use vegeta.Pacer.Constant.{ConstantPacer}
use vegeta.Flags.{set_rate, set_max_body}
use vegeta.Flags.Meaning.{set_rate-defaults}

good-IsHeader : IsHeader (codes "A", codes "b")
unfolding trim_left trim_right is_space has_prefix
good-IsHeader = record {
  word = ((refl, refl), tt);
  no_colon = (omega arith, tt);
  some_name = λ e. cc;
  no_comment = refl;
  no_body = refl;
  value = record { some_text = λ e. cc; no_left = refl; no_right = refl };
}

-- Every duration is a second, and the size is the length of the text.
abbrev a_second : Text → Option ℤ
a_second t = some (pos 1_000_000_000)

abbrev sized : Text → Option ℕ
sized t = some (length t)

abbrev no_rate : ConstantPacer
no_rate = record { freq = pos 0; per = pos 0 }

set_rate-defaults_example :
    (set_rate a_second sized no_rate (codes "5") ≡ set_rate a_second sized no_rate (codes "5/1s"))
    × (set_rate a_second sized no_rate (codes "5/m")
        ≡ set_rate a_second sized no_rate (codes "5/1m"))
unfolding text_eq
set_rate-defaults_example =
    set_rate-defaults a_second sized no_rate (codes "5") (codes "m") (omega arith, tt) refl
      (inr (inr (inr (inr (inr (inl refl))))))

size_accepted : set_max_body a_second sized (codes "10kb") ≡ ok (pos 4)
unfolding set_max_body text_eq
size_accepted = refl
