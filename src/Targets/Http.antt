-- ===== src/Targets/Http.antt =====
-- lib/targets.go: `NewHTTPTargeter` and the `peekingScanner` that it reads lines through.
pub mod Trim
pub mod Lines
pub mod Written
pub mod RoundTrip
pub mod Sample
use vegeta.Prelude.{
  ℕ, zero, suc, ◌+◌, Bool, true, false, not, ◌&&◌, ◌||◌, Option, none, some, List, [], ◌∷◌, ◌++◌,
  ◌==◌, if◌then◌else◌, length, leb, ltb,
}
use vegeta.Prelude.Text.{Text, codes, is_empty, trim_space, split2, has_prefix, text_key}
use vegeta.Prelude.Map.{assign}
use vegeta.Outcome.{Fallible, ok, err}
use vegeta.Results.{Header}
use vegeta.Targets.{
  Target, TargetError, no_targets, nil_target, bad_body, bad_target, bad_method, bad_url,
  bad_header, rounds_ran_out, append_values,
}

-- A `bufio.Scanner` over lines: the lines to come, the line read last, whether `Scan` has said that
-- there are no more, and, if reading fails with an error, from how many lines left on `Err` knows of it
-- before that.
pub record Scanner : Type 0 where
  pub rest : List Text
  pub token : Text
  pub ended : Bool
  pub fails : Option ℕ

pub record PeekingScanner : Type 0 where
  pub src : Scanner
  pub peeked : Text

-- `bufio.Scanner.Scan`.
unfoldable pub advance : Scanner → Bool × Scanner
advance s = elim (s.rest) [
  | [] ↦ (false, record s { token = []; ended = true })
  | l ∷ ls ↦ (true, record s { rest = ls; token = l })
]

-- `Err`.
unfoldable pub has_failed : PeekingScanner → Bool
has_failed s = elim (s.src.fails) [
  | none ↦ false
  | some n ↦ s.src.ended || ltb (length s.src.rest) n
]

-- `Peek`.
unfoldable pub peek : PeekingScanner → Text × PeekingScanner
unfolding advance
peek s =
    let (more, src) = advance s.src in
    if more
    then (src.token, record { src = src; peeked = src.token })
    else ([], record s { src = src })

-- `Scan`.
unfoldable pub scan : PeekingScanner → Bool × PeekingScanner
unfolding advance
scan s =
    let (more, src) = advance s.src in
    if is_empty s.peeked then (more, record s { src = src }) else (true, s)

-- `Text`.
unfoldable pub text : PeekingScanner → Text × PeekingScanner
text s = if is_empty s.peeked then (s.src.token, s) else (s.peeked, record s { peeked = [] })

-- The class `\s` of the regular expression.
abbrev pub is_blank : ℕ → Bool
is_blank c = c == 9 || c == 10 || c == 12 || c == 13 || c == 32

abbrev pub is_upper : ℕ → Bool
is_upper c = leb b'A' c && leb c b'Z'

-- `[A-Z]*\s` at the start of a text.
unfoldable pub upper_then_blank : Text → Bool
upper_then_blank [] = false
upper_then_blank (c ∷ s) = is_blank c || (is_upper c && upper_then_blank s)

-- `startsWithHTTPMethod`: the expression `^[A-Z]+\s`.
unfoldable pub starts_with_http_method : Text → Bool
starts_with_http_method [] = false
starts_with_http_method (c ∷ s) = is_upper c && upper_then_blank s

-- The first loop: the first line that is neither empty nor a comment, or that there is none, with the
-- number of rounds as fuel.
unfoldable pub next_line : ℕ → PeekingScanner → Fallible TargetError (Text × PeekingScanner)
next_line zero s = err rounds_ran_out
next_line (suc fuel) s =
    let (more, s1) = scan s in
    let (t, s2) = text s1 in
    let line = trim_space t in
    let again = next_line fuel s2 in
    if not more
    then err no_targets
    else if not (is_empty line) && not (has_prefix (b'#' ∷ []) line)
    then ok (line, s2)
    else again

-- The bounds of the two loops: no more rounds than lines.
abbrev pub rounds : PeekingScanner → ℕ
rounds s = suc (suc (length s.src.rest))

-- The two parts of a header line, trimmed.
unfoldable pub header_parts : List Text → Option (Text × Text)
header_parts (k ∷ v ∷ _) =
    if is_empty (trim_space k) || is_empty (trim_space v)
    then none
    else some (trim_space k, trim_space v)
header_parts _ = none

-- What the environment answers: `url.ParseRequestURI` without an error, and `os.ReadFile`.
module _ (is_uri : Text → Bool) (read_file : Text → Option Text) where
  -- A line `@file`.
  unfoldable pub load_body :
      Target → Text → PeekingScanner → PeekingScanner × Fallible TargetError Target
  load_body tgt path s = elim (read_file path) [
    | none ↦ (s, err bad_body)
    | some b ↦ (s, ok (record tgt { body = b }))
  ]

  abbrev drop_one : Text → Text
  drop_one [] = []
  drop_one (_ ∷ s) = s

  -- The loop over the header lines, with the rounds left as fuel.
  unfoldable pub header_loop :
      ℕ → Target → PeekingScanner → PeekingScanner × Fallible TargetError Target
  header_loop zero tgt s = (s, err rounds_ran_out)
  header_loop (suc fuel) tgt s =
      let (more, s1) = scan s in
      let (t, s2) = text s1 in
      let line = trim_space t in
      let skipped = header_loop fuel tgt s2 in
      if not more
      then (s1, ok tgt)
      else if is_empty line
      then (s2, ok tgt)
      else if has_prefix (b'#' ∷ []) line
      then skipped
      else if has_prefix (b'@' ∷ []) line
      then load_body tgt (drop_one line) s2
      else elim (header_parts (split2 b':' line)) [
        | none ↦ (s2, err (bad_header line))
        | some (k, v) ↦
            header_loop fuel (record tgt { header = append_values k (v ∷ []) tgt.header }) s2
      ]

  -- Behind the loop a read error is reported as the end of the targets.
  unfoldable pub check_scanner :
      PeekingScanner × Fallible TargetError Target → PeekingScanner × Fallible TargetError Target
  check_scanner (s, err e) = (s, err e)
  check_scanner (s, ok tgt) = if has_failed s then (s, err no_targets) else (s, ok tgt)

  -- From the request line on: the line that follows decides whether there are headers.
  unfoldable pub after_request :
      Target → PeekingScanner → PeekingScanner × Fallible TargetError Target
  after_request tgt s =
      let (next, s1) = peek s in
      let line = trim_space next in
      if is_empty line || starts_with_http_method line
      then (s1, ok tgt)
      else check_scanner (header_loop (rounds s1) tgt s1)

  -- The request line, split at its first space.
  unfoldable pub request :
      Target → Text → List Text → PeekingScanner → PeekingScanner × Fallible TargetError Target
  request tgt line (method ∷ uri ∷ _) s =
      if not (starts_with_http_method line)
      then (s, err (bad_method method))
      else if not (is_uri uri)
      then (s, err (bad_url uri))
      else after_request (record tgt { method = method; url = uri }) s
  request tgt line _ s = (s, err (bad_target line))

  -- `Scan` has said that there are no more lines.
  abbrev pub used_up : PeekingScanner → PeekingScanner
  used_up s = record s { src = record (s.src) { rest = []; token = []; ended = true }; peeked = [] }

  -- The targeter, with the default body and headers. The flag is `tgt == nil`.
  unfoldable pub decode :
      Text → Header → Bool → PeekingScanner → PeekingScanner × Fallible TargetError Target
  decode body hdr is_nil s = if is_nil then (s, err nil_target) else elim (next_line (rounds s) s) [
    | err e ↦ (used_up s, err e)
    | ok (line, s1) ↦
        request (record { method = []; url = []; body = body; header = hdr }) line
          (split2 b' ' line) s1
  ]
