-- ===== src/Results/Equality.antt =====
-- What `Result.Equal` and `headerEqual` compare.
use vegeta.Prelude.{
  ◌≡◌, ◌≢◌, refl, true, false, ◌↔◌, Option, none, some, List, [], ◌∷◌, length, arith, All, ==_iff,
}
use vegeta.Prelude.Int.{ℤ, ◌==ℤ◌}
use vegeta.Prelude.Text.{Text, text_key, text_eq_iff}
use vegeta.Prelude.Map.{lookup}
use vegeta.Results.{
  Header, Result, values_at, values_equal, all_values_equal, same_entries, header_equal, equal,
}

values_equal_iff : (vs ws : List Text) → (values_equal vs ws ≡ true) ↔ (vs ≡ ws)
unfolding values_equal
values_equal_iff (v ∷ vs) (w ∷ ws) = ground (arith, text_eq_iff v w, values_equal_iff vs ws)
values_equal_iff _ _ = ground arith

-- The entries of the first header are found in the second, where a missing name counts as one without values.
abbrev pub HasEntries : Header → Header → Type 0
HasEntries h1 h2 = All (λ e. values_at e.0 h2 ≡ e.1) h1

all_values_equal_iff : (h1 h2 : Header) → (all_values_equal h1 h2 ≡ true) ↔ HasEntries h1 h2
unfolding all_values_equal
all_values_equal_iff [] h2 = ground arith
all_values_equal_iff ((k, vs) ∷ h1) h2 =
    ground (arith, values_equal_iff vs (values_at k h2), all_values_equal_iff h1 h2)

-- Two headers that `headerEqual` takes for equal.
pub data SameHeader : Option Header → Option Header → Type 0 where
  both_nil : SameHeader none none
  same_values :
      (h1 h2 : Header) → length h1 ≡ length h2 → HasEntries h1 h2 → SameHeader (some h1) (some h2)

-- Two results that `Equal` takes for equal.
pub record SameResult (r other : Result) : Type 0 where
  pub attack : r.attack ≡ other.attack
  pub seq : r.seq ≡ other.seq
  pub code : r.code ≡ other.code
  pub timestamp : r.timestamp ≡ other.timestamp
  pub latency : r.latency ≡ other.latency
  pub bytes_in : r.bytes_in ≡ other.bytes_in
  pub bytes_out : r.bytes_out ≡ other.bytes_out
  pub error : r.error ≡ other.error
  pub body : r.body ≡ other.body
  pub method : r.method ≡ other.method
  pub url : r.url ≡ other.url
  pub headers : SameHeader r.headers other.headers

header_equal_sound : (h1 h2 : Option Header) → header_equal h1 h2 ≡ true → SameHeader h1 h2
unfolding header_equal same_entries
header_equal_sound none none e = both_nil
header_equal_sound (some h1) (some h2) e =
    same_values h1 h2 (ground (arith, e)) ((all_values_equal_iff h1 h2).0 (ground (arith, e)))
header_equal_sound none (some h2) e = absurd (ground (arith, e))
header_equal_sound (some h1) none e = absurd (ground (arith, e))

header_equal_complete : (h1 h2 : Option Header) → SameHeader h1 h2 → header_equal h1 h2 ≡ true
unfolding header_equal same_entries
header_equal_complete _ _ both_nil = refl
header_equal_complete _ _ (same_values h1 h2 l e) =
    ground (arith, l, (all_values_equal_iff h1 h2).1 e)

==ℤ_iff : (a b : ℤ) → ((a ==ℤ b) ≡ true) ↔ (a ≡ b)
==ℤ_iff a b = ground arith

equal_sound : (r other : Result) → equal r other ≡ true → SameResult r other
unfolding equal
equal_sound r other e = record {
  attack = (text_eq_iff r.attack other.attack).0 (ground (arith, e));
  seq = ground (arith, e);
  code = ground (arith, e);
  timestamp = (==ℤ_iff r.timestamp other.timestamp).0 (ground (arith, e));
  latency = (==ℤ_iff r.latency other.latency).0 (ground (arith, e));
  bytes_in = ground (arith, e);
  bytes_out = ground (arith, e);
  error = (text_eq_iff r.error other.error).0 (ground (arith, e));
  body = (text_eq_iff r.body other.body).0 (ground (arith, e));
  method = (text_eq_iff r.method other.method).0 (ground (arith, e));
  url = (text_eq_iff r.url other.url).0 (ground (arith, e));
  headers = header_equal_sound r.headers other.headers (ground (arith, e));
}

equal_complete : (r other : Result) → SameResult r other → equal r other ≡ true
unfolding equal
equal_complete r other s = rw (
  (text_eq_iff r.attack other.attack).1 s.attack,
  (==_iff r.seq other.seq).1 s.seq,
  (==_iff r.code other.code).1 s.code,
  (==ℤ_iff r.timestamp other.timestamp).1 s.timestamp,
  (==ℤ_iff r.latency other.latency).1 s.latency,
  (==_iff r.bytes_in other.bytes_in).1 s.bytes_in,
  (==_iff r.bytes_out other.bytes_out).1 s.bytes_out,
  (text_eq_iff r.error other.error).1 s.error,
  (text_eq_iff r.body other.body).1 s.body,
  (text_eq_iff r.method other.method).1 s.method,
  (text_eq_iff r.url other.url).1 s.url,
  header_equal_complete r.headers other.headers s.headers,
)

-- `Equal` says true exactly of two results that agree in every field, where the headers agree when both
-- are nil, or both have as many names and the second has the values of each name of the first.
pub equal_iff : (r other : Result) → (equal r other ≡ true) ↔ SameResult r other
equal_iff r other = (equal_sound r other, equal_complete r other)

-- A name without values is not looked for: a header of one such name equals, for `headerEqual`, any
-- header of one other name, and if that one has a value, the comparison the other way round says that
-- they differ.
pub header_equal-IsOneSided :
    (k j v : Text) (vs : List Text)
    → k ≢ j
    → (header_equal (some ((k, []) ∷ [])) (some ((j, v ∷ vs) ∷ [])) ≡ true)
      × (header_equal (some ((j, v ∷ vs) ∷ [])) (some ((k, []) ∷ [])) ≡ false)
unfolding header_equal same_entries all_values_equal values_at lookup values_equal
header_equal-IsOneSided k j v vs ne = (
  ground (arith, text_eq_iff j k, text_eq_iff k j, ne),
  ground (arith, text_eq_iff j k, text_eq_iff k j, ne),
)
