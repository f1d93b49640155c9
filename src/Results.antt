-- ===== src/Results.antt =====
-- lib/results.go: the result of a hit, its end, and the comparison of results.
pub mod Equality
pub mod Csv
pub mod Detect
pub mod Sorted
pub mod Json
pub mod Sample
mod Tests
pub mod RoundRobin
use vegeta.Prelude.{
  ℕ, zero, suc, ◌+◌, ◌*◌, ◌^◌, ◌<◌, Bool, true, false, ◌&&◌, Option, none, some, List, [], ◌∷◌,
  length, ◌==◌,
}
use vegeta.Prelude.Int.{ℤ, pos, negsuc, ◌+ℤ◌, ◌==ℤ◌}
use vegeta.Prelude.Text.{Text, text_eq, text_key}
use vegeta.Prelude.Map.{lookup}

-- `http.Header`, a map from names to lists of values. A nil map is `none` where the program tells it
-- from an empty one.
abbrev pub Header : Type 0
Header = List (Text × List Text)

-- Instants are nanoseconds since the Unix epoch.
pub record Result : Type 0 where
  pub attack : Text
  pub seq : ℕ  -- uint64
  pub code : ℕ  -- uint16
  pub timestamp : ℤ
  pub latency : ℤ  -- int64
  pub bytes_out : ℕ  -- uint64
  pub bytes_in : ℕ  -- uint64
  pub error : Text
  pub body : Text
  pub method : Text
  pub url : Text
  pub headers : Option Header

-- `End`.
unfoldable pub end_of : Result → ℤ
end_of r = r.timestamp +ℤ r.latency

-- `h[key]`: nil, that is no values, for a missing key.
unfoldable pub values_at : Text → Header → List Text
values_at k h = elim (lookup k h) [ none ↦ [] | some vs ↦ vs ]

-- The loop over two value lists of one length.
unfoldable pub values_equal : List Text → List Text → Bool
values_equal [] [] = true
values_equal (v ∷ vs) (w ∷ ws) = text_eq v w && values_equal vs ws
values_equal _ _ = false

unfoldable pub all_values_equal : Header → Header → Bool
all_values_equal [] h2 = true
all_values_equal ((k, vs) ∷ h1) h2 = values_equal vs (values_at k h2) && all_values_equal h1 h2

abbrev pub size : Option Header → ℕ
size none = 0
size (some h) = length h

-- `headerEqual` past the comparison of lengths.
unfoldable pub same_entries : Option Header → Option Header → Bool
same_entries none none = true
same_entries (some h1) (some h2) = all_values_equal h1 h2
same_entries _ _ = false

unfoldable pub header_equal : Option Header → Option Header → Bool
header_equal h1 h2 = size h1 == size h2 && same_entries h1 h2

-- `Equal`.
unfoldable pub equal : Result → Result → Bool
equal r other =
    text_eq r.attack other.attack
    && r.seq == other.seq
    && r.code == other.code
    && r.timestamp ==ℤ other.timestamp
    && r.latency ==ℤ other.latency
    && r.bytes_in == other.bytes_in
    && r.bytes_out == other.bytes_out
    && text_eq r.error other.error
    && text_eq r.body other.body
    && text_eq r.method other.method
    && text_eq r.url other.url
    && header_equal r.headers other.headers
