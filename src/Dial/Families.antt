-- ===== src/Dial/Families.antt =====
-- What `firstOfEachIPFamily` takes.
use vegeta.Prelude.{
  sym, ◌∙◌, Option-cases, inl, inr, ◌≡◌, refl, Bool, true, false, not, All, Option, none, some,
  List, [], ◌∷◌, if◌then◌else◌, arith,
}
use vegeta.Prelude.Text.{Text}
use vegeta.Dial.{families_loop, first_of_each_ip_family}

-- Whether the second family is not the first.
abbrev pub is_other : Bool → Bool → Bool
is_other true w = not w
is_other false w = w

module _ (parse_ip : Text → Option Bool) where
  -- The first IP of the family that the flag does not name.
  abbrev pub other_family : Bool → List Text → List Text
  other_family v4 [] = []
  other_family v4 (ip ∷ ips) = elim (parse_ip ip) [
    | none ↦ other_family v4 ips
    | some w ↦ if is_other v4 w then ip ∷ [] else other_family v4 ips
  ]

  -- The first IP, and the first one behind it of the other family.
  abbrev pub one_of_each : List Text → List Text
  one_of_each [] = []
  one_of_each (ip ∷ ips) = elim (parse_ip ip) [
    | none ↦ one_of_each ips
    | some v4 ↦ ip ∷ other_family v4 ips
  ]

  loop_full :
      (a b : Text) (last : Bool) (ips : List Text)
      → families_loop parse_ip (a ∷ b ∷ []) last ips ≡ a ∷ b ∷ []
  unfolding families_loop
  loop_full a b last [] = refl
  loop_full a b last (ip ∷ ips) = ground arith

  loop_one :
      (a : Text) (last : Bool) (ips : List Text)
      → families_loop parse_ip (a ∷ []) last ips ≡ a ∷ other_family last ips
  unfolding families_loop
  loop_one a last [] = refl
  loop_one a last (ip ∷ ips) =
      ground (arith, loop_one a last ips, loop_full a ip true ips, loop_full a ip false ips)

  loop_none : (last : Bool) (ips : List Text) → families_loop parse_ip [] last ips ≡ one_of_each ips
  unfolding families_loop
  loop_none last [] = refl
  loop_none last (ip ∷ ips) =
      ground (arith, loop_none last ips, loop_one ip true ips, loop_one ip false ips)

  -- Of any addresses, `firstOfEachIPFamily` takes the first that is an IP and the first behind it that is an IP
  -- of the other family, as far as there are any, in this order, and nothing else.
  pub first_of_each_ip_family_lem :
      (ips : List Text) → first_of_each_ip_family parse_ip ips ≡ one_of_each ips
  unfolding first_of_each_ip_family
  first_of_each_ip_family_lem [] = refl
  first_of_each_ip_family_lem (ip ∷ ips) = loop_none false (ip ∷ ips)

  not_taken :
      (ip : Text) (ips : List Text) → parse_ip ip ≡ none → one_of_each (ip ∷ ips) ≡ one_of_each ips
  not_taken ip ips f = rw (one_of_each, f) refl

  -- Nothing is taken only where there is no IP.
  pub one_of_each-nil :
      (ips : List Text) → one_of_each ips ≡ [] → All (λ ip. parse_ip ip ≡ none) ips
  one_of_each-nil [] e = tt
  one_of_each-nil (ip ∷ ips) e = elim (Option-cases (parse_ip ip)) [
    | inl f ↦ (f, one_of_each-nil ips (sym (not_taken ip ips f) ∙ e))
    | inr (v4, f) ↦ absurd (ground (arith, e, f))
  ]
