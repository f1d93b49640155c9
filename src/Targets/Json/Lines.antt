-- ===== src/Targets/Json/Lines.antt =====
-- lib/targets.go: what `ReadAllTargets` reads of a file of JSON lines, and the headers of its targets.
use vegeta.Prelude.{
  ℕ, zero, suc, ◌<◌, ◌≡◌, refl, ap, sym, ◌∙◌, ◌⊎◌, inl, inr, true, false, Option, none, some, List,
  [], ◌∷◌, ◌++◌, append_assoc, append-nil, if◌then◌else◌, length, All, arith, Bool-cases,
  Option-cases,
}
use vegeta.Prelude.Text.{Text, text_key, text_eq, text_eq_iff, is_empty, trim_space}
use vegeta.Prelude.Map.{lookup, lookup-assign}
use vegeta.Outcome.{Fallible, ok, err}
use vegeta.Results.{Header, values_at}
use vegeta.Targets.{Target, TargetError, no_targets, append_values}
use vegeta.Targets.ReadAll.{is_end, read_loop, read_all, some_targets}
use vegeta.Targets.Json.{Reader, next_data, merge, filled, from_line, decode_json}

values_at-append_values :
    (k j : Text) (vs : List Text) (h : Header)
    → values_at j (append_values k vs h)
      ≡ (if text_eq k j then values_at k h ++ vs else values_at j h)
unfolding values_at append_values
values_at-append_values k j vs h =
    ap (λ o. elim o [ none ↦ [] | some ws ↦ ws ]) (lookup-assign k j (values_at k h ++ vs) h)
    ∙ elim (Bool-cases (text_eq k j)) [ inl e ↦ rw e refl | inr e ↦ rw e refl ]

-- All values under a name.
abbrev pub all_at : Text → Header → List Text
all_at j [] = []
all_at j ((k, vs) ∷ m) = if text_eq k j then vs ++ all_at j m else all_at j m

values_at-merge : (j : Text) (m h : Header) → values_at j (merge m h) ≡ values_at j h ++ all_at j m
unfolding merge
values_at-merge j [] h = sym (append-nil (values_at j h))
values_at-merge j ((k, vs) ∷ m) h =
    values_at-merge j m (append_values k vs h)
    ∙ ap (λ ws. ws ++ all_at j m) (values_at-append_values k j vs h)
    ∙ elim (Bool-cases (text_eq k j)) [
      | inl e ↦ rw e (
          append_assoc (values_at k h) vs (all_at j m)
          ∙ ap (λ n. values_at n h ++ (vs ++ all_at j m)) ((text_eq_iff k j).0 e))
      | inr e ↦ rw e refl
    ]

-- A target without anything.
abbrev pub blank : Target
blank = record { method = []; url = []; body = []; header = [] }

module _ (parse : Text → Option Target) (body : Text) (hdr : Header) where
  -- A line that is empty, or a target with a method and a URL.
  abbrev pub IsGood : Text → Type 0
  IsGood l =
      (is_empty (trim_space l) ≡ true)
      ⊎ ((t : Target) × (is_empty (trim_space l) ≡ false)
          × (parse (trim_space l) ≡ some t)
          × (is_empty t.method ≡ false)
          × (is_empty t.url ≡ false))

  -- The targets of the lines.
  abbrev pub targets_in : (ls : List Text) → All IsGood ls → List Target
  targets_in [] good = []
  targets_in (l ∷ ls) (inl _, good) = targets_in ls good
  targets_in (l ∷ ls) (inr (t, _, _, _, _), good) =
      filled parse body hdr t blank ∷ targets_in ls good

  -- The targeter, on a fresh target.
  abbrev pub json_targeter : Reader → Reader × Fallible TargetError Target
  json_targeter rd = decode_json parse body hdr (some blank) rd

  abbrev pub reader : List Text → Text → Reader
  reader ls tail = record { lines = ls; tail = tail; broken = false }

  -- The step of `ReadAllTargets`, from what the targeter gives.
  abbrev after :
      ℕ
      → List Target
      → Reader × Fallible TargetError Target
      → Option (Fallible TargetError (List Target))
  after fuel tgts p = elim (p.1) [
    | ok tgt ↦ read_loop json_targeter fuel p.0 (tgts ++ tgt ∷ [])
    | err e ↦ some (if is_end e then ok tgts else err e)
  ]

  -- An empty line is skipped.
  skipped :
      (l tail : Text) (ls : List Text)
      → is_empty (trim_space l) ≡ true
      → json_targeter (reader (l ∷ ls) tail) ≡ json_targeter (reader ls tail)
  unfolding decode_json next_data
  skipped l tail ls e = elim (Option-cases (next_data ls)) [
    | inl f ↦ rw (decode_json, next_data, e, f) refl
    | inr (_, f) ↦ rw (decode_json, next_data, e, f) refl
  ]

  -- A line with a target gives it.
  given :
      (l tail : Text) (ls : List Text) (t : Target)
      → is_empty (trim_space l) ≡ false
      → parse (trim_space l) ≡ some t
      → is_empty t.method ≡ false
      → is_empty t.url ≡ false
      → json_targeter (reader (l ∷ ls) tail) ≡ (reader ls tail, ok (filled parse body hdr t blank))
  unfolding decode_json next_data from_line
  given l tail ls t e f g u = rw (decode_json, next_data, e, f, from_line, g, u) refl

  read_loop-lines :
      (fuel : ℕ) (tgts : List Target) (tail : Text) (ls : List Text) (good : All IsGood ls)
      → length ls < fuel
      → read_loop json_targeter fuel (reader ls tail) tgts ≡ some (ok (tgts ++ targets_in ls good))
  unfolding read_loop decode_json next_data
  read_loop-lines zero tgts tail ls good h = absurd (omega (arith, h))
  read_loop-lines (suc fuel) tgts tail [] good h = ap (λ ts. some (ok ts)) (sym (append-nil tgts))
  read_loop-lines (suc fuel) tgts tail (l ∷ ls) (inl e, good) h =
      ap (after fuel tgts) (skipped l tail ls e)
      ∙ read_loop-lines (suc fuel) tgts tail ls good (omega (arith, h))
  read_loop-lines (suc fuel) tgts tail (l ∷ ls) (inr (t, e, f, g, u), good) h =
      ap (after fuel tgts) (given l tail ls t e f g u)
      ∙ read_loop-lines fuel (tgts ++ filled parse body hdr t blank ∷ []) tail ls good
          (omega (arith, h))
      ∙ ap (λ ts. some (ok ts))
          (append_assoc tgts (filled parse body hdr t blank ∷ []) (targets_in ls good))

  -- Of a file of lines that are empty or hold a target with a method and a URL, read without an error,
  -- `ReadAllTargets` gives the targets of the lines in their order, or the error of no targets if
  -- there are none, in one round more than there are lines. What stands behind the last newline is not
  -- read. With each target come the body of its line or else the default one, and under each name the
  -- default values before those of its line.
  pub read_all-json :
      (ls : List Text) (good : All IsGood ls) (tail : Text)
      → (read_all json_targeter (suc (length ls)) (reader ls tail)
          ≡ some
              (if is_empty (targets_in ls good) then err no_targets else ok (targets_in ls good)))
        × ((t : Target) (j : Text)
            → values_at j (filled parse body hdr t blank).header
              ≡ all_at j hdr ++ all_at j t.header)
        × ((t : Target)
            → ((filled parse body hdr t blank).method ≡ t.method)
              × ((filled parse body hdr t blank).url ≡ t.url)
              × ((filled parse body hdr t blank).body ≡ (if is_empty t.body then body else t.body)))
  unfolding read_all filled values_at lookup
  read_all-json ls good tail = (
    ap (λ o. elim o [ none ↦ none | some got ↦ some (some_targets json_targeter got) ])
        (read_loop-lines (suc (length ls)) [] tail ls good (omega arith)),
    λ t j.
        values_at-merge j t.header (merge hdr [])
        ∙ ap (λ vs. vs ++ all_at j t.header) (values_at-merge j hdr []),
    λ t. (refl, refl, refl),
  )
