-- ===== src/Targets/Json/Tests.antt =====
-- A file of two targets, an empty line and a target without a newline.
use vegeta.Prelude.{
  ◌≡◌, refl, inl, inr, Option, some, List, [], ◌∷◌, ◌++◌, length, suc, All, if◌then◌else◌,
}
use vegeta.Prelude.Text.{
  Text, text_key, codes, is_empty, trim_space, trim_left, trim_right, is_space,
}
use vegeta.Outcome.{ok, err}
use vegeta.Results.{Header, values_at}
use vegeta.Targets.{Target, no_targets, append_values}
use vegeta.Targets.ReadAll.{read_all, read_loop}
use vegeta.Targets.Json.{filled, decode_json, next_data, from_line, merge}
use vegeta.Prelude.Map.{assign, lookup}
use vegeta.Targets.Json.Lines.{
  IsGood, targets_in, json_targeter, reader, all_at, blank, read_all-json,
}

-- A line is the URL of a target.
abbrev target : Text → Target
target l = record {
  method = codes "GET";
  url = l;
  body = [];
  header = (codes "A", codes "c" ∷ []) ∷ [];
}

abbrev parse : Text → Option Target
parse l = some (target l)

abbrev defaults : Header
defaults = (codes "A", codes "b" ∷ []) ∷ []

abbrev lines : List Text
lines = codes "x" ∷ [] ∷ codes "y " ∷ []

good : All (IsGood parse (codes "body") defaults) lines
unfolding trim_space trim_left trim_right is_space
good = (
  inr (target (codes "x"), refl, refl, refl, refl),
  (inl refl, (inr (target (codes "y"), refl, refl, refl, refl), tt)),
)

read_all-json_example :
    (read_all
        (json_targeter parse (codes "body") defaults)
        (suc (length lines))
        (reader parse (codes "body") defaults lines (codes "z"))
      ≡ some (
          if is_empty (targets_in parse (codes "body") defaults lines good)
          then err no_targets
          else ok (targets_in parse (codes "body") defaults lines good)))
    × ((t : Target) (j : Text)
        → values_at j (filled parse (codes "body") defaults t blank).header
          ≡ all_at j defaults ++ all_at j t.header)
    × ((t : Target)
        → ((filled parse (codes "body") defaults t blank).method ≡ t.method)
          × ((filled parse (codes "body") defaults t blank).url ≡ t.url)
          × ((filled parse (codes "body") defaults t blank).body
              ≡ (if is_empty t.body then codes "body" else t.body)))
read_all-json_example = read_all-json parse (codes "body") defaults lines good (codes "z")

-- The target behind the last newline is lost.
only_two :
    read_all
      (json_targeter parse [] [])
      4
      (reader parse [] [] (codes "x" ∷ codes "y" ∷ []) (codes "z"))
    ≡ some (ok (record (target (codes "x")) { body = [] } ∷ target (codes "y") ∷ []))
unfolding read_all read_loop decode_json next_data from_line filled merge append_values assign
    values_at lookup trim_space trim_left trim_right is_space
only_two = refl
