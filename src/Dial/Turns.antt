-- ===== src/Dial/Turns.antt =====
-- The order in which `ConnectTo` gives out the addresses that stand for one.
use native.Mathlib.Nat.{suc-mod, mod-lt}
use vegeta.Prelude.{
  ℕ, ◌+◌, ◌%◌, ◌<◌, ◌≡◌, ap, sym, ◌∙◌, Option, none, some, List, if◌then◌else◌, length, get_elem?,
  get_elem?-below, arith,
}
use vegeta.Prelude.Text.{Text, text_key, text_eq}
use vegeta.Prelude.Map.{lookup, assign, lookup-assign}
use vegeta.Outcome.{Outcome, returns, panics}
use vegeta.Dial.{RoundRobin, next_addr, translate}

turn-suc : (k n : ℕ) → (k % n + 1) % n ≡ (k + 1) % n
turn-suc k n = ap (λ x. x % n) (omega arith) ∙ sym (suc-mod k n) ∙ ap (λ x. x % n) (omega arith)

abbrev pub turn : List Text → ℕ → RoundRobin
turn addrs k = record { addrs = addrs; n = k % length addrs }

next_addr-turn :
    (addrs : List Text) (k : ℕ) (a : Text)
    → get_elem? addrs ((k + 1) % length addrs) ≡ some a
    → next_addr (turn addrs k) ≡ returns (a, turn addrs (k + 1))
unfolding next_addr
next_addr-turn addrs k a e =
    ap (λ n. at_turn n (get_elem? addrs n)) (turn-suc k (length addrs))
    ∙ ap (at_turn ((k + 1) % length addrs)) e
  where
    at_turn : ℕ → Option Text → Outcome (Text × RoundRobin)
    at_turn n o = elim o [ none ↦ panics | some x ↦ returns (x, record { addrs = addrs; n = n }) ]

translate_found :
    (m : List (Text × RoundRobin)) (addr a : Text) (cm cm1 : RoundRobin)
    → lookup addr m ≡ some cm
    → next_addr cm ≡ returns (a, cm1)
    → translate m addr ≡ returns (a, assign addr cm1 m)
unfolding translate
translate_found m addr a cm cm1 found next = rw (translate, found, next)

-- If `k` connections to an address that is translated were made, and it has addresses to be translated
-- to, the next one goes to the one at `k + 1` modulo their number, the count goes up by one, and the
-- counts of the other addresses stay.
pub translate-TakesTurns :
    (m : List (Text × RoundRobin)) (addr : Text) (addrs : List Text) (k : ℕ)
    → 0 < length addrs
    → lookup addr m ≡ some (turn addrs k)
    → (a : Text) × (m1 : List (Text × RoundRobin)) × (get_elem? addrs ((k + 1) % length addrs)
        ≡ some a)
      × (translate m addr ≡ returns (a, m1))
      × ((other : Text)
          → lookup other m1
            ≡ (if text_eq addr other then some (turn addrs (k + 1)) else lookup other m))
translate-TakesTurns m addr addrs k some_addr found =
    let (a, at) = get_elem?-below addrs ((k + 1) % length addrs) (mod-lt (k + 1) some_addr) in
    (
      a,
      assign addr (turn addrs (k + 1)) m,
      at,
      translate_found m addr a (turn addrs k) (turn addrs (k + 1)) found
          (next_addr-turn addrs k a at),
      λ other. lookup-assign addr other (turn addrs (k + 1)) m,
    )
