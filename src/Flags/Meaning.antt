-- ===== src/Flags/Meaning.antt =====
-- What the flags' texts mean.
use vegeta.Prelude.{
  ℕ, ◌^◌, ◌<◌, ◌≡◌, ◌≢◌, ◌⊎◌, inl, inr, refl, ap, sym, ◌∙◌, true, false, Option, none, some, [],
  ◌∷◌, ◌++◌, if◌then◌else◌, arith, All, Any, List, subst, Bool-cases, Option-cases,
}
use vegeta.Prelude.Int.{ℤ, pos, negsuc, ◌==ℤ◌, IsInt64}
use vegeta.Prelude.Text.{Text, text_eq, text_key, codes, split2}
use vegeta.Decimal.{parse_int}
use vegeta.Outcome.{Fallible, ok, err}
use vegeta.Results.{Header}
use vegeta.Targets.{append_values}
use vegeta.Targets.Http.Trim.{split2-append}
use vegeta.Targets.Http.Written.{IsHeader, header_line, header_line-ReadsHeader}
use vegeta.Pacer.Constant.{ConstantPacer}
use vegeta.Flags.{
  FlagError, bad_number, set_header, set_rate, set_per, set_max_body, duration_text, freq_text,
  is_unit, with_one,
}

-- The text of a header flag is read as a header line of a targets file is: a line of a name and a value that
-- the file format allows adds the value to those of the name.
pub set_header-header_line :
    (hdr : Header) (h : Text × Text)
    → IsHeader h
    → set_header hdr (header_line h) ≡ ok (append_values h.0 (h.1 ∷ []) hdr)
unfolding set_header
set_header-header_line hdr h is_header =
    rw (set_header, (header_line-ReadsHeader h is_header).parts)

split2-single : (sep : ℕ) (w : Text) → All (λ c. c ≢ sep) w → split2 sep w ≡ w ∷ []
unfolding split2
split2-single sep [] h = refl
split2-single sep (c ∷ w) h = ground (arith, split2-single sep w h.1)

text_eq-with_sep :
    (sep : ℕ) (w d t : Text) → All (λ c. c ≢ sep) t → text_eq (w ++ sep ∷ d) t ≡ false
unfolding text_eq
text_eq-with_sep sep [] d [] h = refl
text_eq-with_sep sep [] d (y ∷ t) h = ground (arith, h.0)
text_eq-with_sep sep (c ∷ w) d [] h = refl
text_eq-with_sep sep (c ∷ w) d (y ∷ t) h = ground (arith, text_eq-with_sep sep w d t h.1)

no_slash : All (λ c. c ≢ b'/') (codes "infinity")
no_slash = (
  omega arith,
  (
    omega arith,
    (omega arith, (omega arith, (omega arith, (omega arith, (omega arith, (omega arith, tt)))))),
  ),
)

-- The units of a duration.
abbrev pub units : List Text
units = codes "ns" ∷ codes "us" ∷ codes "µs" ∷ codes "ms" ∷ codes "s" ∷ codes "m" ∷ codes "h" ∷ []

-- A unit is known as one, and is none with a number before it.
abbrev IsBare : Text → Type 0
IsBare u = (is_unit u ≡ true) × (is_unit (b'1' ∷ u) ≡ false)

unit_once : (u : Text) → Any (λ unit. u ≡ unit) units → IsBare u
unfolding is_unit text_eq
unit_once u (inl e) = subst IsBare (sym e) (refl, refl)
unit_once u (inr (inl e)) = subst IsBare (sym e) (refl, refl)
unit_once u (inr (inr (inl e))) = subst IsBare (sym e) (refl, refl)
unit_once u (inr (inr (inr (inl e)))) = subst IsBare (sym e) (refl, refl)
unit_once u (inr (inr (inr (inr (inl e))))) = subst IsBare (sym e) (refl, refl)
unit_once u (inr (inr (inr (inr (inr (inl e)))))) = subst IsBare (sym e) (refl, refl)
unit_once u (inr (inr (inr (inr (inr (inr (inl e))))))) = subst IsBare (sym e) (refl, refl)
unit_once u (inr (inr (inr (inr (inr (inr (inr none_left))))))) = absurd none_left

module _ (parse_duration : Text → Option ℤ) (parse_size : Text → Option ℕ) where
  abbrev rate_of : ConstantPacer → Text → Fallible FlagError ConstantPacer
  rate_of = set_rate parse_duration parse_size

  -- What `set_rate` makes of the two parts.
  abbrev from_parts : ConstantPacer → Option ℤ → Text → Fallible FlagError ConstantPacer
  from_parts rate freq d = elim freq [
    | none ↦ err bad_number
    | some f ↦
        if f ==ℤ pos 0
        then ok (record rate { freq = f })
        else set_per parse_duration parse_size (record rate { freq = f }) d
  ]

  set_rate-slash :
      (rate : ConstantPacer) (f d : Text)
      → All (λ c. c ≢ b'/') f
      → rate_of rate (f ++ b'/' ∷ d) ≡ from_parts rate (parse_int f) d
  unfolding set_rate freq_text duration_text
  set_rate-slash rate f d h =
      rw (text_eq-with_sep b'/' f d (codes "infinity") no_slash, split2-append b'/' f d h)
        (ap (λ ps. from_parts rate (parse_int f) (duration_text ps)) (split2-append b'/' f d h))

  set_rate-plain :
      (rate : ConstantPacer) (f : Text)
      → All (λ c. c ≢ b'/') f
      → text_eq f (codes "infinity") ≡ false
      → rate_of rate f ≡ from_parts rate (parse_int f) (codes "1s")
  unfolding set_rate freq_text duration_text
  set_rate-plain rate f h e =
      rw (e, split2-single b'/' f h)
        (ap (λ ps. from_parts rate (parse_int f) (duration_text ps)) (split2-single b'/' f h))

  set_per-unit :
      (rate : ConstantPacer) (u : Text)
      → is_unit u ≡ true
      → is_unit (b'1' ∷ u) ≡ false
      → set_per parse_duration parse_size rate u ≡ set_per parse_duration parse_size rate (b'1' ∷ u)
  unfolding set_per with_one
  set_per-unit rate u unit other = rw (set_per, unit, other)

  from_parts-unit :
      (rate : ConstantPacer) (freq : Option ℤ) (u : Text)
      → is_unit u ≡ true
      → is_unit (b'1' ∷ u) ≡ false
      → from_parts rate freq u ≡ from_parts rate freq (b'1' ∷ u)
  from_parts-unit rate none u unit other = refl
  from_parts-unit rate (some f) u unit other = elim (Bool-cases (f ==ℤ pos 0)) [
    | inl zero_freq ↦ rw (zero_freq)
    | inr paced ↦ rw (paced) (set_per-unit (record rate { freq = f }) u unit other)
  ]

  -- A rate without a duration is one with the duration `1s`, and a bare unit behind the slash, of ns, us,
  -- µs, ms, s, m and h, is one of that unit, whatever the frequency, as long as the text before the
  -- slash has no other slash and is not `infinity`.
  pub set_rate-defaults :
      (rate : ConstantPacer) (f u : Text)
      → All (λ c. c ≢ b'/') f
      → text_eq f (codes "infinity") ≡ false
      → Any (λ unit. u ≡ unit) units
      → (rate_of rate f ≡ rate_of rate (f ++ b'/' ∷ codes "1s"))
        × (rate_of rate (f ++ b'/' ∷ u) ≡ rate_of rate (f ++ b'/' ∷ b'1' ∷ u))
  set_rate-defaults rate f u h e among =
      let (unit, other) = unit_once u among in
      (
        set_rate-plain rate f h e ∙ sym (set_rate-slash rate f (codes "1s") h),
        set_rate-slash rate f u h
            ∙ from_parts-unit rate (parse_int f) u unit other
            ∙ sym (set_rate-slash rate f (b'1' ∷ u) h),
      )

  -- A limit on the body that the flag accepts is -1, for none, or the size that the text names, which fits an
  -- int64.
  pub set_max_body-IsInt64 :
      (v : Text) {n : ℤ}
      → set_max_body parse_duration parse_size v ≡ ok n
      → IsInt64 n × ((n ≡ negsuc 0) ⊎ ((m : ℕ) × (parse_size v ≡ some m) × (n ≡ pos m)))
  unfolding set_max_body
  set_max_body-IsInt64 v {n} e = elim (Bool-cases (text_eq v (codes "-1"))) [
    | inl unlimited ↦
        let same : n ≡ negsuc 0 = ground (arith, unlimited, e) in
        (rw same (record { above = omega arith; below = omega arith }), inl same)
    | inr limited ↦ elim (Option-cases (parse_size v)) [
      | inl bad ↦ absurd (ground (arith, limited, bad, e))
      | inr (m, found) ↦
          let same : n ≡ pos m = ground (arith, limited, found, e) in
          let fits : m < 2 ^ 63 = ground (arith, limited, found, e) in
          (rw same (record { above = fits; below = omega arith }), inr (m, found, same))
    ]
  ]
