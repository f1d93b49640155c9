-- ===== src/Commands/Tests.antt =====
-- Two files of numbers, and an attack that is interrupted once.
use vegeta.Prelude.{ℕ, ◌+◌, ◌≡◌, refl, ap, true, none, some, List, [], ◌∷◌, length, arith}
use vegeta.Outcome.{Fallible, ok, err}
use vegeta.Results.RoundRobin.{RoundRobin}
use vegeta.Commands.{at_end, AttackEvent, signalled, received, targeter_failed, encode_loop}
use vegeta.Commands.Encode.{total, IsWeight, encode_loop-ends}

take_next : List ℕ → List ℕ × Fallible (Unit {0}) ℕ
take_next [] = ([], err tt)
take_next (n ∷ ns) = (ns, ok n)

gives_one : (x x1 : List ℕ) (r : ℕ) → take_next x ≡ (x1, ok r) → length x ≡ 1 + length x1
unfolding take_next
gives_one [] x1 r h = absurd (cc)
gives_one (n ∷ ns) x1 r h = let same : ns ≡ x1 = cc in omega (arith, ap length same)

ends_empty : (x x1 : List ℕ) (e : Unit {0}) → take_next x ≡ (x1, err e) → length x ≡ 0
unfolding take_next
ends_empty [] x1 e h = refl
ends_empty (n ∷ ns) x1 e h = absurd (cc)

take_next-stays : (x x1 : List ℕ) (e : Unit {0}) → take_next x ≡ (x1, err e) → x1 ≡ x
unfolding take_next
take_next-stays [] x1 e h = cc
take_next-stays (n ∷ ns) x1 e h = absurd (cc)

by_length : IsWeight take_next length (λ r. 1)
unfolding take_next
by_length = record {
  gives = λ x x1 r h. gives_one x x1 r h;
  ends = λ x x1 e h. ends_empty x x1 e h;
}

abbrev two_files : RoundRobin (List ℕ)
two_files = record { inputs = (4 ∷ []) ∷ (6 ∷ 7 ∷ []) ∷ []; seq = 0 }

encode_loop-ends_example :
    (rs : List ℕ) × (encode_loop take_next (λ e. true) (λ r. none) 0 4 two_files
      ≡ (rs, some at_end))
    × (total (λ r. 1) rs ≡ total length two_files.inputs)
encode_loop-ends_example =
    encode_loop-ends take_next take_next-stays (λ e. true) (λ r. none) 0 length length (λ r. 1)
      by_length by_length (λ e. refl) (λ r. refl) 4 two_files (omega arith) (omega arith)
      (omega arith)

abbrev events : List (AttackEvent ℕ)
events = received 1 none ∷ signalled ∷ targeter_failed ∷ received 2 none ∷ []
