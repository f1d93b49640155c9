-- ===== src/Dial/Tests.antt =====
-- Two connections that take turns, IPs of both families, and a resolver with two addresses.
use vegeta.Prelude.{
  ◌+◌, ◌%◌, ◌≡◌, refl, true, false, arith, Bool, Option, none, some, List, [], ◌∷◌, map, length,
  get_elem?, ◌==◌, if◌then◌else◌,
}
use vegeta.Prelude.Text.{Text, codes, text_eq, text_key}
use vegeta.Prelude.Map.{lookup}
use vegeta.Outcome.{Fallible, returns, ok, err}
use vegeta.Dial.Families.{one_of_each}
use vegeta.Dial.Cached.{collect, dial_cached, Answers, IsArrival, dial_cached-Answers}
use vegeta.Dial.{RoundRobin, connect_to, translate, first_of_each_ip_family, families_loop}
use vegeta.Dial.Turns.{turn, translate-TakesTurns}

-- A text that starts with the digit 4 or 6 is an IP of that version.
abbrev parse_first : Text → Option Bool
parse_first [] = none
parse_first (c ∷ s) = if c == b'4' then some true else if c == b'6' then some false else none

abbrev ips : List Text
ips = codes "x" ∷ codes "4a" ∷ codes "4b" ∷ codes "6a" ∷ []

abbrev two : List Text
two = codes "b" ∷ codes "c" ∷ []

abbrev start : List (Text × RoundRobin)
start = connect_to ((codes "a", two) ∷ [])

start_found : lookup (codes "a") start ≡ some (turn two 0)
unfolding connect_to lookup text_eq
start_found = refl

translate-TakesTurns_example :
    (a : Text) × (m1 : List (Text × RoundRobin)) × (get_elem? two ((0 + 1) % length two) ≡ some a)
    × (translate start (codes "a") ≡ returns (a, m1))
    × ((other : Text)
        → lookup other m1
          ≡ (if text_eq (codes "a") other then some (turn two (0 + 1)) else lookup other start))
translate-TakesTurns_example =
    translate-TakesTurns start (codes "a") two 0 (omega arith) start_found

-- Every address is of one host, at port 53.
abbrev split_any : Text → Option (Text × Text)
split_any addr = some (codes "1.1.1.1", codes "53")

abbrev known_host : Text → Bool
known_host host = true

-- The second address refuses the connection.
abbrev dial_first : Text → Fallible Text Text
dial_first addr = if text_eq addr (codes "4a") then ok addr else err (codes "refused")

abbrev split_none : Text → Option (Text × Text)
split_none addr = some (addr, [])

abbrev find_ips : Text → Fallible Text (List Text)
find_ips host = ok ips

abbrev arrive : List (Fallible Text Text) → List (Fallible Text Text)
arrive rs = rs

arrive-IsArrival : IsArrival arrive
arrive-IsArrival = record { any = λ P rs h. h; all = λ P rs h. h; nothing = λ rs h. h }

dial_cached-Answers_example :
    Answers parse_first ips (map (λ ip. dial_first ip) (one_of_each parse_first ips)) (
      dial_cached split_none
        (λ ip port. ip)
        find_ips
        (λ found. found)
        parse_first
        dial_first
        arrive
        (codes "host"))
dial_cached-Answers_example =
    dial_cached-Answers split_none (λ ip port. ip) find_ips (λ found. found) parse_first dial_first
      arrive arrive-IsArrival (codes "host") (codes "host") [] ips refl refl refl

-- Of addresses of which none is an IP.
nobody :
    dial_cached split_none
      (λ ip port. ip)
      (λ host. ok (codes "x" ∷ []))
      (λ found. found)
      parse_first
      dial_first
      arrive
      (codes "host")
    ≡ (none, none)
unfolding dial_cached collect first_of_each_ip_family families_loop
nobody = refl
