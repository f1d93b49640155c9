-- ===== src/Targets.antt =====
-- lib/targets.go: targets and targeters.
pub mod Http
pub mod Static
pub mod ReadAll
pub mod Json
mod Tests
use vegeta.Prelude.{
  ℕ, zero, suc, ◌+◌, Bool, true, false, not, ◌&&◌, ◌||◌, Option, none, some, List, [], ◌∷◌, ◌++◌,
  ◌==◌, if◌then◌else◌, length,
}
use vegeta.Prelude.Text.{Text, text_eq, text_key}
use vegeta.Prelude.Map.{assign}
use vegeta.Results.{Header, values_at, all_values_equal}

pub record Target : Type 0 where
  pub method : Text
  pub url : Text
  pub body : Text
  pub header : Header

-- The errors of the targeters, with the text that they quote; the last one is none of the code, but says
-- that the rounds of a loop have run out.
pub data TargetError : Type 0 where
  no_targets nil_target no_method no_url bad_body syntax read_failed : TargetError
  bad_target : Text → TargetError
  bad_method : Text → TargetError
  bad_url : Text → TargetError
  bad_header : Text → TargetError
  rounds_ran_out : TargetError

-- `h[k] = append(h[k], vs...)`, of slices as values.
unfoldable pub append_values : Text → List Text → Header → Header
append_values k vs h = assign k (values_at k h ++ vs) h

-- `Equal`, of two targets that are not nil and not one object.
unfoldable pub equal : Target → Target → Bool
equal t other =
    text_eq t.method other.method
    && text_eq t.url other.url
    && text_eq t.body other.body
    && length t.header == length other.header
    && all_values_equal t.header other.header
