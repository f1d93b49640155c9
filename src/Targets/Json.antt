-- ===== src/Targets/Json.antt =====
-- lib/targets.go: `NewJSONTargeter`. The parser of a line, which is generated code, is a parameter.
pub mod Lines
mod Tests
use vegeta.Prelude.{Bool, true, false, Option, none, some, List, [], ◌∷◌, if◌then◌else◌}
use vegeta.Prelude.Text.{Text, is_empty, trim_space}
use vegeta.Outcome.{Fallible, ok, err}
use vegeta.Results.{Header}
use vegeta.Targets.{
  Target, TargetError, no_targets, nil_target, no_method, no_url, syntax, read_failed,
  append_values,
}

-- What a `bufio.Reader` will read: the lines that end in a newline, what comes behind the last
-- newline, and whether the source then fails with another error than io.EOF.
pub record Reader : Type 0 where
  pub lines : List Text
  pub tail : Text
  pub broken : Bool

-- The loop that skips empty lines: the first line that is not empty, trimmed. Without one, `ReadBytes`
-- has come to the end, and gives the tail with an error.
unfoldable pub next_data : List Text → Option (Text × List Text)
next_data [] = none
next_data (l ∷ ls) =
    let data_behind = next_data ls in
    if is_empty (trim_space l) then data_behind else some (trim_space l, ls)

-- `tgt.Header[k] = append(tgt.Header[k], vs...)` for each name and its values.
unfoldable pub merge : Header → Header → Header
merge [] h = h
merge ((k, vs) ∷ more) h = merge more (append_values k vs h)

abbrev pub used_up : Reader → Reader
used_up rd = record rd { lines = []; tail = [] }

module _ (parse : Text → Option Target) (body : Text) (hdr : Header) where
  -- The target of a line, from the header that the target had.
  unfoldable pub filled : Target → Target → Target
  unfolding merge
  filled t tgt = record {
    method = t.method;
    url = t.url;
    body = if is_empty t.body then body else t.body;
    header = merge t.header (merge hdr tgt.header);
  }

  -- The checks of what a line was parsed to, or not.
  unfoldable pub from_line : Option Target → Target → Fallible TargetError Target
  unfolding filled
  from_line none tgt = err syntax
  from_line (some t) tgt =
      if is_empty t.method
      then err no_method
      else if is_empty t.url
      then err no_url
      else ok (filled t tgt)

  -- The targeter, on a target or nil.
  unfoldable pub decode_json : Option Target → Reader → Reader × Fallible TargetError Target
  unfolding next_data from_line
  decode_json none rd = (rd, err nil_target)
  decode_json (some tgt) rd = elim (next_data rd.lines) [
    | none ↦ (used_up rd, err (if rd.broken then read_failed else no_targets))
    | some (line, ls) ↦ (record rd { lines = ls }, from_line (parse line) tgt)
  ]
