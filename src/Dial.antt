-- ===== src/Dial.antt =====
-- Which address a connection goes to: lib/attack.go, `ConnectTo` and `firstOfEachIPFamily`, and
-- internal/resolver/resolver.go.
pub mod Families
pub mod Cached
pub mod Turns
pub mod Resolver
mod Tests
use vegeta.Prelude.{
  ℕ, zero, suc, ◌+◌, ◌%◌, ◌^◌, Bool, true, false, not, ◌||◌, Option, none, some, List, [], ◌∷◌,
  ◌++◌, if◌then◌else◌, leb, ◌==◌, length, get_elem?,
}
use vegeta.Prelude.Text.{Text, text_key, is_empty}
use vegeta.Prelude.Map.{lookup, assign}
use vegeta.Outcome.{Outcome, returns, panics}

abbrev pub differs : Bool → Bool → Bool
differs true b = not b
differs false b = b

-- `net.ParseIP` followed by `To4`: none for no IP, and otherwise whether it is one of version 4.
module _ (parse_ip : Text → Option Bool) where
  -- The loop of `firstOfEachIPFamily`, with the addresses taken so far and `lastV4`.
  unfoldable pub families_loop : List Text → Bool → List Text → List Text
  families_loop each last [] = each
  families_loop each last (ip ∷ ips) = elim (parse_ip ip) [
    | none ↦ if leb 2 (length each) then each else families_loop each last ips
    | some v4 ↦
        if leb 2 (length each)
        then each
        else if is_empty each || differs v4 last
        then families_loop (each ++ ip ∷ []) v4 ips
        else families_loop each last ips
  ]

  -- `firstOfEachIPFamily`, of a list that is not shared with anything else.
  unfoldable pub first_of_each_ip_family : List Text → List Text
  unfolding families_loop
  first_of_each_ip_family ips = if is_empty ips then ips else families_loop [] false ips

-- The `roundRobin` of `ConnectTo`.
pub record RoundRobin : Type 0 where
  pub addrs : List Text
  pub n : ℕ

-- The map that `ConnectTo` starts from.
unfoldable pub connect_to : List (Text × List Text) → List (Text × RoundRobin)
connect_to [] = []
connect_to ((k, v) ∷ m) = (k, record { addrs = v; n = 0 }) ∷ connect_to m

-- `cm.n = (cm.n + 1) % len(cm.addrs)` and `cm.addrs[cm.n]`, which panics on no addresses.
unfoldable pub next_addr : RoundRobin → Outcome (Text × RoundRobin)
next_addr cm =
    let n = (cm.n + 1) % length cm.addrs in
    elim (get_elem? cm.addrs n) [ none ↦ panics | some a ↦ returns (a, record cm { n = n }) ]

-- What `DialContext` does with an address before it dials.
unfoldable pub translate :
    List (Text × RoundRobin) → Text → Outcome (Text × List (Text × RoundRobin))
translate m addr = elim (lookup addr m) [
  | none ↦ returns (addr, m)
  | some cm ↦ elim (next_addr cm) [
    | panics ↦ panics
    | returns (a, cm1) ↦ returns (a, assign addr cm1 m)
  ]
]
