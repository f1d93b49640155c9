-- ===== src/Dial/Resolver.antt =====
-- internal/resolver/resolver.go: `normalizeAddrs` and the resolver's `address`.
use vegeta.Prelude.{
  ℕ, ◌+◌, ◌%◌, ◌^◌, ◌≡◌, Bool, true, false, Option, none, some, List, [], ◌∷◌, ◌++◌, if◌then◌else◌,
  ◌||◌, ◌==◌, length, map, ◌≢◌, sym, subst, get_elem?, arith, All, Any, ◌⊎◌, Option-cases,
  Bool-cases, inl, inr,
}
use vegeta.Prelude.Text.{Text, codes}
use vegeta.Decimal.{parse_uint}
use vegeta.Outcome.{Outcome, returns, panics, Fallible, ok, err, Fallible-cases}

pub data ResolverError : Type 0 where
  no_addresses bad_host_port bad_port : ResolverError
  not_an_ip : Text → ResolverError

-- `strings.Contains(addr, ":")`.
unfoldable pub has_colon : Text → Bool
has_colon [] = false
has_colon (c ∷ s) = c == b':' || has_colon s

abbrev pub with_port : Text → Text
with_port addr = if has_colon addr then addr else addr ++ codes ":53"

-- What becomes of an address that is given: it stays if it has a colon, and else has port 53.
abbrev pub StandsFor : Text → Text → Type 0
StandsFor addr given =
    (Any (λ c. c ≡ b':') given × (addr ≡ given))
    ⊎ (All (λ c. c ≢ b':') given × (addr ≡ given ++ codes ":53"))

-- `address`, with the resolver's counter.
unfoldable pub address : List Text → ℕ → ℕ × Outcome Text
address addrs idx =
    let next = (idx + 1) % 2 ^ 64 in
    (next, elim (get_elem? addrs (next % length addrs)) [ none ↦ panics | some a ↦ returns a ])

-- `net.SplitHostPort` and whether `net.ParseIP` knows the host are parameters.
module _ (split_host_port : Text → Option (Text × Text)) (is_ip : Text → Bool) where
  -- The body of the loop of `normalizeAddrs`.
  unfoldable pub normalize_addr : Text → Fallible ResolverError Text
  normalize_addr a =
      let addr = with_port a in
      elim (split_host_port addr) [
        | none ↦ err bad_host_port
        | some (host, portstr) ↦ elim (parse_uint 16 portstr) [
          | none ↦ err bad_port
          | some port ↦ if is_ip host then ok addr else err (not_an_ip host)
        ]
      ]

  -- `normalizeAddrs`.
  unfoldable pub normalize_addrs : List Text → Fallible ResolverError (List Text)
  normalize_addrs [] = ok []
  normalize_addrs (a ∷ addrs) = elim (normalize_addr a) [
    | err e ↦ err e
    | ok addr ↦ elim (normalize_addrs addrs) [ err e ↦ err e | ok rest ↦ ok (addr ∷ rest) ]
  ]

  -- `NewResolver`: the addresses of the resolver that it makes.
  unfoldable pub new_resolver : List Text → Fallible ResolverError (List Text)
  new_resolver addrs = if length addrs == 0 then err no_addresses else normalize_addrs addrs

  -- An address with an IP as its host and a port of 16 bits.
  pub record IsAddress (addr : Text) : Type 0 where
    pub host : Text
    pub portstr : Text
    pub port : ℕ
    pub splits : split_host_port addr ≡ some (host, portstr)
    pub numeric : parse_uint 16 portstr ≡ some port
    pub known : is_ip host ≡ true

  normalize_addr-IsAddress :
      (a : Text) {addr : Text} → normalize_addr a ≡ ok addr → (addr ≡ with_port a) × IsAddress addr
  unfolding normalize_addr
  normalize_addr-IsAddress a {addr} e = elim (Option-cases (split_host_port (with_port a))) [
    | inl no_split ↦ absurd (ground (arith, no_split, e))
    | inr ((host, portstr), split) ↦ elim (Option-cases (parse_uint 16 portstr)) [
      | inl no_port ↦ absurd (ground (arith, split, no_port, e))
      | inr (port, number) ↦ elim (Bool-cases (is_ip host)) [
        | inr unknown ↦ absurd (ground (arith, split, number, unknown, e))
        | inl known ↦
            let same : addr ≡ with_port a = ground (arith, split, number, known, e) in
            (
              same,
              record {
                host = host;
                portstr = portstr;
                port = port;
                splits = rw same split;
                numeric = number;
                known = known;
              },
            )
      ]
    ]
  ]

  normalize_addrs-IsAddress :
      (addrs : List Text) {out : List Text}
      → normalize_addrs addrs ≡ ok out
      → (out ≡ map with_port addrs) × All IsAddress out
  unfolding normalize_addrs
  normalize_addrs-IsAddress [] {out} e =
      let same : out ≡ [] = ground (arith, e) in (same, subst (All IsAddress) (sym same) tt)
  normalize_addrs-IsAddress (a ∷ addrs) {out} e = elim (Fallible-cases (normalize_addr a)) [
    | inr (x, bad) ↦ absurd (ground (arith, bad, e))
    | inl (addr, one) ↦ elim (Fallible-cases (normalize_addrs addrs)) [
      | inr (x, bad) ↦ absurd (ground (arith, one, bad, e))
      | inl (rest, more) ↦
          let same : out ≡ addr ∷ rest = ground (arith, one, more, e) in
          let (is, good) = normalize_addr-IsAddress a one in
          let (are, all) = normalize_addrs-IsAddress addrs more in
          (rw (same, is, are), subst (All IsAddress) (sym same) (good, all))
    ]
  ]

  -- Where `NewResolver` gives no error, there is an address, each is the one given, with port 53 if it had no
  -- port, in the order given, and each has an IP as its host and a decimal port of 16 bits.
  pub new_resolver-IsAddress :
      (addrs : List Text) {out : List Text}
      → new_resolver addrs ≡ ok out
      → (out ≢ []) × (out ≡ map with_port addrs) × All IsAddress out
  unfolding new_resolver
  new_resolver-IsAddress [] {out} e = absurd (cc)
  new_resolver-IsAddress (a ∷ addrs) {out} e =
      let some_addr : (length (a ∷ addrs) == 0) ≡ false = ground arith in
      let (same, good) = normalize_addrs-IsAddress (a ∷ addrs) (ground (arith, some_addr, e)) in
      let some_out : with_port a ∷ map with_port addrs ≢ [] = λ none_left. cc in
      (subst (λ o. o ≢ []) (sym same) some_out, same, good)
