-- ===== src/Results/RoundRobin.antt =====
-- lib/results.go: `NewRoundRobinDecoder`, over decoders as steps on their own states.
pub mod Fair
use vegeta.Prelude.{
  ℕ, zero, suc, ◌+◌, ◌%◌, ◌^◌, ◌==◌, Bool, true, false, Option, none, some, List, [], ◌∷◌,
  if◌then◌else◌, length, get_elem?, set,
}
use vegeta.Outcome.{Fallible, ok, err}

-- The decoders' inputs and the number of turns so far, a uint64.
pub record RoundRobin (S : Type 0) : Type 0 where
  pub inputs : List S
  pub seq : ℕ

module _ {S E R : Type 0} (decode : S → S × Fallible E R) where
  -- `dec[robin].Decode(r)`, which moves that decoder's input on.
  unfoldable pub decode_at : ℕ → List S → Option (List S × Fallible E R)
  decode_at i inputs = elim (get_elem? inputs i) [
    | none ↦ none
    | some s ↦ let (s1, got) = decode s in some (set inputs i s1, got)
  ]

  -- The loop `for range dec`, with the rounds left and the error so far. It ends at the first decoder
  -- without an error; a nil error after it, which is no error, is `none`.
  unfoldable pub turns : ℕ → Option E → RoundRobin S → RoundRobin S × Option (Fallible E R)
  turns zero last s = (s, elim last [ none ↦ none | some e ↦ some (err e) ])
  turns (suc rounds) last s =
      let robin = s.seq % length s.inputs in
      let next = (s.seq + 1) % 2 ^ 64 in
      elim (decode_at robin s.inputs) [
        | none ↦ (s, none)
        | some (inputs, ok r) ↦ (record { inputs = inputs; seq = next }, some (ok r))
        | some (inputs, err e) ↦ turns rounds (some e) (record { inputs = inputs; seq = next })
      ]

  -- One call of the decoder. A single decoder is called itself.
  unfoldable pub round_robin : RoundRobin S → RoundRobin S × Option (Fallible E R)
  round_robin s =
      if length s.inputs == 1
      then elim (decode_at 0 s.inputs) [
        | none ↦ (s, none)
        | some (inputs, got) ↦ (record s { inputs = inputs }, some got)
      ]
      else turns (length s.inputs) none s
