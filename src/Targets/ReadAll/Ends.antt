-- ===== src/Targets/ReadAll/Ends.antt =====
-- lib/targets.go: `ReadAllTargets` comes to an end over the targeters that read a source, whatever is in it.
use vegeta.Prelude.{
  ℕ, zero, suc, ◌+◌, ◌≤◌, ◌<◌, ◌≡◌, ◌≢◌, ◌∙◌, ap, refl, inl, inr, Bool, true, false, Option, some,
  List, [], ◌∷◌, ◌++◌, if◌then◌else◌, length, arith, Bool-cases, Option-cases,
}
use vegeta.Prelude.Text.{Text, is_empty, trim_space, split2}
use vegeta.Outcome.{Fallible, ok, err, Fallible-cases}
use vegeta.Results.{Header}
use vegeta.Targets.{Target, TargetError, rounds_ran_out, append_values}
use vegeta.Targets.Http.{
  PeekingScanner, advance, peek, scan, text, next_line, header_loop, header_parts, load_body,
  check_scanner, after_request, request, decode, rounds,
}
use vegeta.Targets.Json.{Reader, next_data, from_line, decode_json}
use vegeta.Targets.ReadAll.{read_loop, read_all, some_targets, is_end}

err_same :
    {A : Type 0} (d e : TargetError) → ◌≡◌ {A = Fallible TargetError A} (err d) (err e) → d ≡ e
err_same d e h = cc

-- The error that `ReadAllTargets` makes of an error is that of the rounds only for itself.
error_kept :
    (e : TargetError) (tgts : List Target)
    → ◌≡◌ {A = Fallible TargetError (List Target)}
        (if is_end e then ok tgts else err e)
        (err rounds_ran_out)
    → e ≡ rounds_ran_out
error_kept e tgts same = ground (arith, same)

module _ {S : Type 0} (targeter : S → S × Fallible TargetError Target) (weight : S → ℕ)
    (shrinks : (s : S) (t : Target) → (targeter s).1 ≡ ok t → weight (targeter s).0 < weight s)
    (ends : (s : S) → (targeter s).1 ≢ err rounds_ran_out) where
  -- An end that is not that of the rounds.
  abbrev pub Ends : Option (Fallible TargetError (List Target)) → Type 0
  Ends out =
      (got : Fallible TargetError (List Target)) × (out ≡ some got) × (got ≢ err rounds_ran_out)

  read_loop-Ends :
      (fuel : ℕ) (s : S) (tgts : List Target)
      → weight s < fuel
      → Ends (read_loop targeter fuel s tgts)
  unfolding read_loop
  read_loop-Ends zero s tgts lt = absurd (omega (arith, lt))
  read_loop-Ends (suc fuel) s tgts lt = elim (Fallible-cases (targeter s).1) [
    | inr (e, f) ↦
        rw (read_loop, f)
          (
            (if is_end e then ok tgts else err e),
            refl,
            λ same. ends s (f ∙ ap err (error_kept e tgts same)),
          )
    | inl (t, f) ↦
        rw (read_loop, f)
          (read_loop-Ends fuel (targeter s).0 (tgts ++ t ∷ []) (omega (arith, lt, shrinks s t f)))
  ]

  read_all_within : (s : S) → Ends (read_all targeter (suc (weight s)) s)
  unfolding read_all
  read_all_within s =
      let (got, e, other) = read_loop-Ends (suc (weight s)) s [] (omega arith) in
      rw (read_all, e) (some_targets targeter got, refl, some_targets_other got other)
    where
      some_targets_other :
          (got : Fallible TargetError (List Target))
          → got ≢ err rounds_ran_out
          → some_targets targeter got ≢ err rounds_ran_out
      some_targets_other (err e) other = other
      some_targets_other (ok []) other = λ same. cc
      some_targets_other (ok (t ∷ ts)) other = λ same. cc

-- The lines that a scanner still has.
abbrev pub lines_left : PeekingScanner → ℕ
lines_left s = length s.src.rest + (if is_empty s.peeked then 0 else 1)

line-shrinks :
    (s : PeekingScanner) → (scan s).0 ≡ true → lines_left (text (scan s).1).1 < lines_left s
unfolding scan text advance
line-shrinks s e = ground (arith, e)

scan-≤ : (s : PeekingScanner) → lines_left (scan s).1 ≤ lines_left s
unfolding scan advance
scan-≤ s = ground arith

peek-≤ : (s : PeekingScanner) → lines_left (peek s).1 ≤ lines_left s
unfolding peek advance
peek-≤ s = ground arith

next_line-shrinks :
    (fuel : ℕ) (s : PeekingScanner) {line : Text} {s1 : PeekingScanner}
    → next_line fuel s ≡ ok (line, s1)
    → lines_left s1 < lines_left s
unfolding next_line
next_line-shrinks zero s e = absurd cc
next_line-shrinks (suc fuel) s {line} {s1} e = elim (Bool-cases (scan s).0) [
  | inr f ↦ absurd (ground (arith, e, f))
  | inl f ↦
      let shorter = line-shrinks s f in
      ground
        (arith, e, f, shorter, next_line-shrinks fuel (text (scan s).1).1 {line = line} {s1 = s1})
]

-- With more rounds than lines, the first loop ends by itself.
next_line-ends :
    (fuel : ℕ) (s : PeekingScanner) → lines_left s < fuel → next_line fuel s ≢ err rounds_ran_out
unfolding next_line
next_line-ends zero s lt e = absurd (omega (arith, lt))
next_line-ends (suc fuel) s lt e = elim (Bool-cases (scan s).0) [
  | inr f ↦ absurd (ground (arith, e, f))
  | inl f ↦
      let shorter = line-shrinks s f in
      ground (arith, e, f, next_line-ends fuel (text (scan s).1).1 (omega (arith, shorter, lt)))
]

module _ (is_uri : Text → Bool) (read_file : Text → Option Text) where
  -- With more rounds than lines, the loop over the header lines ends by itself.
  header_loop-ends :
      (fuel : ℕ) (tgt : Target) (s : PeekingScanner)
      → lines_left s < fuel
      → (header_loop is_uri read_file fuel tgt s).1 ≢ err rounds_ran_out
  unfolding header_loop load_body
  header_loop-ends zero tgt s lt e = absurd (omega (arith, lt))
  header_loop-ends (suc fuel) tgt s lt e = elim (Bool-cases (scan s).0) [
    | inr f ↦ absurd (ground (arith, e, f))
    | inl f ↦
        let shorter = line-shrinks s f in
        let less : lines_left (text (scan s).1).1 < fuel = omega (arith, shorter, lt) in
        let line = trim_space (text (scan s).1).0 in
        elim (Option-cases (header_parts (split2 b':' line))) [
          | inl g ↦
              absurd (ground (arith, e, f, g, header_loop-ends fuel tgt (text (scan s).1).1 less))
          | inr ((k, v), g) ↦
              let next = record tgt { header = append_values k (v ∷ []) tgt.header } in
              absurd (
                ground (
                  arith,
                  e,
                  f,
                  g,
                  header_loop-ends fuel tgt (text (scan s).1).1 less,
                  header_loop-ends fuel next (text (scan s).1).1 less,
                ))
        ]
  ]

  load_body-same :
      (tgt : Target) (path : Text) (s : PeekingScanner)
      → (load_body is_uri read_file tgt path s).0 ≡ s
  unfolding load_body
  load_body-same tgt path s = ground arith

  header_loop-≤ :
      (fuel : ℕ) (tgt : Target) (s : PeekingScanner)
      → lines_left (header_loop is_uri read_file fuel tgt s).0 ≤ lines_left s
  unfolding header_loop load_body
  header_loop-≤ zero tgt s = omega arith
  header_loop-≤ (suc fuel) tgt s = elim (Bool-cases (scan s).0) [
    | inr f ↦ rw (header_loop, f) (scan-≤ s)
    | inl f ↦
        let shorter = line-shrinks s f in
        let skipped = header_loop-≤ fuel tgt (text (scan s).1).1 in
        let line = trim_space (text (scan s).1).0 in
        elim (Option-cases (header_parts (split2 b':' line))) [
          | inl g ↦ ground (arith, f, g, shorter, skipped)
          | inr ((k, v), g) ↦
              let more =
                header_loop-≤ fuel (record tgt { header = append_values k (v ∷ []) tgt.header })
                  (text (scan s).1).1 in
              ground (arith, f, g, shorter, skipped, more)
        ]
  ]

  check_scanner-same :
      (out : PeekingScanner × Fallible TargetError Target)
      → (check_scanner is_uri read_file out).0 ≡ out.0
  unfolding check_scanner
  check_scanner-same (s, err e) = refl
  check_scanner-same (s, ok tgt) = ground arith

  after_request-≤ :
      (tgt : Target) (s : PeekingScanner)
      → lines_left (after_request is_uri read_file tgt s).0 ≤ lines_left s
  unfolding after_request
  after_request-≤ tgt s =
      let s1 = (peek s).1 in
      let looped = header_loop is_uri read_file (rounds s1) tgt s1 in
      ground (arith, peek-≤ s, header_loop-≤ (rounds s1) tgt s1, check_scanner-same looped)

  request-≤ :
      (tgt : Target) (line : Text) (parts : List Text) (s : PeekingScanner)
      → lines_left (request is_uri read_file tgt line parts s).0 ≤ lines_left s
  unfolding request
  request-≤ tgt line [] s = omega arith
  request-≤ tgt line (m ∷ []) s = omega arith
  request-≤ tgt line (m ∷ u ∷ ps) s =
      ground (arith, after_request-≤ (record tgt { method = m; url = u }) s)

  check_scanner-ends :
      (out : PeekingScanner × Fallible TargetError Target)
      → out.1 ≢ err rounds_ran_out
      → (check_scanner is_uri read_file out).1 ≢ err rounds_ran_out
  unfolding check_scanner
  check_scanner-ends (s, err x) other e = other e
  check_scanner-ends (s, ok tgt) other e = ground (arith, e)

  after_request-ends :
      (tgt : Target) (s : PeekingScanner)
      → (after_request is_uri read_file tgt s).1 ≢ err rounds_ran_out
  unfolding after_request
  after_request-ends tgt s e =
      let s1 = (peek s).1 in
      let looped = header_loop is_uri read_file (rounds s1) tgt s1 in
      let other = check_scanner-ends looped (header_loop-ends (rounds s1) tgt s1 (ground arith)) in
      ground (arith, e, other)

  request-ends :
      (tgt : Target) (line : Text) (parts : List Text) (s : PeekingScanner)
      → (request is_uri read_file tgt line parts s).1 ≢ err rounds_ran_out
  unfolding request
  request-ends tgt line [] s e = absurd (cc)
  request-ends tgt line (m ∷ []) s e = absurd (cc)
  request-ends tgt line (m ∷ u ∷ ps) s e =
      ground (arith, e, after_request-ends (record tgt { method = m; url = u }) s)

  decode-ends :
      (body : Text) (hdr : Header) (s : PeekingScanner)
      → (decode is_uri read_file body hdr false s).1 ≢ err rounds_ran_out
  unfolding decode
  decode-ends body hdr s e = elim (Fallible-cases (next_line (rounds s) s)) [
    | inr (x, f) ↦
        next_line-ends (rounds s) s (ground arith)
          (f ∙ ap err (err_same x rounds_ran_out (rw (decode, f) at e)))
    | inl ((line, s1), f) ↦
        let tgt : Target = record { method = []; url = []; body = body; header = hdr } in
        request-ends tgt line (split2 b' ' line) s1 (rw (decode, f) at e)
  ]

  decode-shrinks :
      (body : Text) (hdr : Header) (s : PeekingScanner) (t : Target)
      → (decode is_uri read_file body hdr false s).1 ≡ ok t
      → lines_left (decode is_uri read_file body hdr false s).0 < lines_left s
  unfolding decode
  decode-shrinks body hdr s t e = elim (Fallible-cases (next_line (rounds s) s)) [
    | inr (x, f) ↦ absurd (ground (arith, e, f))
    | inl ((line, s1), f) ↦
        let shorter = next_line-shrinks (rounds s) s f in
        let tgt : Target = record { method = []; url = []; body = body; header = hdr } in
        rw (decode, f) (omega (arith, shorter, request-≤ tgt line (split2 b' ' line) s1))
  ]

next_data-shrinks :
    (ls : List Text) {l : Text} {rest : List Text}
    → next_data ls ≡ some (l, rest)
    → length rest < length ls
unfolding next_data
next_data-shrinks [] e = absurd cc
next_data-shrinks (l ∷ ls) {l = m} {rest = rest} e =
    ground (arith, e, next_data-shrinks ls {l = m} {rest = rest})

decode_json-shrinks :
    (parse : Text → Option Target) (body : Text) (hdr : Header) (tgt : Target) (rd : Reader)
    (t : Target)
    → (decode_json parse body hdr (some tgt) rd).1 ≡ ok t
    → length (decode_json parse body hdr (some tgt) rd).0.lines < length rd.lines
unfolding decode_json
decode_json-shrinks parse body hdr tgt rd t e = elim (Option-cases (next_data rd.lines)) [
  | inl f ↦ absurd (ground (arith, e, f))
  | inr ((line, ls), f) ↦ rw (decode_json, f) (next_data-shrinks rd.lines f)
]

decode_json-ends :
    (parse : Text → Option Target) (body : Text) (hdr : Header) (tgt : Target) (rd : Reader)
    → (decode_json parse body hdr (some tgt) rd).1 ≢ err rounds_ran_out
unfolding decode_json from_line
decode_json-ends parse body hdr tgt rd e = elim (Option-cases (next_data rd.lines)) [
  | inl f ↦ absurd (ground (arith, e, f))
  | inr ((line, ls), f) ↦ elim (Option-cases (parse line)) [
    | inl g ↦ absurd (ground (arith, e, f, g))
    | inr (t, g) ↦ absurd (ground (arith, e, f, g))
  ]
]

-- Whatever lines a source holds, and whether or not reading it fails, `ReadAllTargets` comes to an end
-- over the HTTP targeter and over the JSON targeter, in at most one round more than there are lines;
-- and no call of the HTTP targeter ends for want of rounds of its two loops over lines, of which it has
-- two more than there are lines.
pub read_all-ends :
    (is_uri : Text → Bool) (read_file : Text → Option Text) (parse : Text → Option Target)
    (body : Text) (hdr : Header) (blank : Target) (s : PeekingScanner) (rd : Reader)
    → ((got : Fallible TargetError (List Target)) × (read_all
            (decode is_uri read_file body hdr false)
            (suc (lines_left s))
            s
          ≡ some got)
        × (got ≢ err rounds_ran_out))
      × ((got : Fallible TargetError (List Target)) × (read_all
              (decode_json parse body hdr (some blank))
              (suc (length rd.lines))
              rd
            ≡ some got)
          × (got ≢ err rounds_ran_out))
read_all-ends is_uri read_file parse body hdr blank s rd = (
  read_all_within (decode is_uri read_file body hdr false) lines_left
      (decode-shrinks is_uri read_file body hdr) (decode-ends is_uri read_file body hdr) s,
  read_all_within (decode_json parse body hdr (some blank)) (λ r. length r.lines)
      (decode_json-shrinks parse body hdr blank) (decode_json-ends parse body hdr blank) rd,
)
