-- ===== src/Commands.antt =====
-- encode.go, attack.go and file.go: the loops of the commands `encode` and `attack`, and the files they open.
pub mod Encode
pub mod Signals
pub mod Tls
pub mod Launch
pub mod Dispatch
mod Tests
use vegeta.Prelude.{
  ℕ, zero, suc, ◌+◌, ◌-◌, ◌^◌, ◌==◌, Bool, true, false, ◌&&◌, Option, none, some, List, [], ◌∷◌,
  ◌++◌, if◌then◌else◌,
}
use vegeta.Prelude.Text.{Text, codes, text_eq}
use vegeta.Outcome.{Fallible, ok, err, ◌>>=◌}
use vegeta.Results.RoundRobin.{RoundRobin, round_robin}

-- How a loop ends: as it is done, or with an error.
pub data Ending (E : Type 0) : Type 0 where
  at_end : Ending E
  failed : E → Ending E

-- The loop of `encode` over a round-robin decoder, without a signal. The fuel is the number of rounds;
-- `none` when it runs out. `blank` is the `Result` that the decoder leaves as it is when it gives
-- neither a result nor an error.
module _ {S E R : Type 0} (decode : S → S × Fallible E R) (is_eof : E → Bool)
    (encode : R → Option E) (blank : R) where
  -- An encoded result stands before what the rest of the loop encodes.
  abbrev pub encoded : R → List R × Option (Ending E) → List R × Option (Ending E)
  encoded r (rs, e) = elim (encode r) [ none ↦ (r ∷ rs, e) | some f ↦ ([], some (failed f)) ]

  unfoldable pub encode_loop : ℕ → RoundRobin S → List R × Option (Ending E)
  encode_loop zero s = ([], none)
  encode_loop (suc fuel) s =
      let out = round_robin decode s in
      elim (out.1) [
        | none ↦ encoded blank (encode_loop fuel out.0)
        | some (ok r) ↦ encoded r (encode_loop fuel out.0)
        | some (err e) ↦ ([], some (if is_eof e then at_end else failed e))
      ]

-- What `select` of `processAttack` finds in a round: a signal; a result, with the error of encoding it
-- if there is one; or that the results are closed. In between, a worker whose targeter fails stops the
-- attack, as `hit` does in lib/attack.go, which `atk.Stop()` sees.
pub data AttackEvent (R : Type 0) : Type 0 where
  signalled : AttackEvent R
  received : R → Option Text → AttackEvent R
  closed : AttackEvent R
  targeter_failed : AttackEvent R

-- The loop of `processAttack`, of whether the attack was stopped, by a signal or by a worker: the results that are encoded, and
-- how it ends, if it does.
unfoldable pub process_attack :
    {R : Type 0} → Bool → List (AttackEvent R) → List R × Option (Ending Text)
process_attack stopped [] = ([], none)
process_attack stopped (signalled ∷ es) =
    let rest = process_attack true es in if stopped then ([], some at_end) else rest
process_attack stopped (received r (some e) ∷ es) = ([], some (failed e))
process_attack stopped (received r none ∷ es) =
    let (rs, e) = process_attack stopped es in (r ∷ rs, e)
process_attack stopped (closed ∷ es) = ([], some at_end)
process_attack stopped (targeter_failed ∷ es) = process_attack true es

-- The check of `attack` before all else: no limit on the workers goes with no limit on the rate.
abbrev pub is_unlimited : ℕ → ℕ → Bool
is_unlimited max_workers freq = max_workers == 2 ^ 64 - 1 && freq == 0

-- What `file` opens.
pub data Opened : Type 0 where
  std_in std_out : Opened
  created : Text → Opened
  opened : Text → Opened

-- `file`, with the errors of `os.Create` and `os.Open`.
unfoldable pub open_file :
    (Text → Option Text) → (Text → Option Text) → Text → Bool → Fallible Text Opened
open_file create_error open_error name create =
    if text_eq name (codes "stdin")
    then ok std_in
    else if text_eq name (codes "stdout")
    then ok std_out
    else if create
    then elim (create_error name) [ none ↦ ok (created name) | some e ↦ err e ]
    else elim (open_error name) [ none ↦ ok (opened name) | some e ↦ err e ]

-- The loop of `decoder`, with the decoders and the files to close so far; `DecoderFor` is a parameter.
-- On an error the decoders are nil and the files so far are given back to be closed.
module _ {D : Type 0} (open_error : Text → Option Text) (decoder_for : Opened → Option D) where
  unfoldable pub decoder : List D → List Opened → List Text → Fallible Text (List D) × List Opened
  unfolding open_file
  decoder decs closer [] = (ok decs, closer)
  decoder decs closer (f ∷ files) = elim (open_file (λ n. none) open_error f false) [
    | err e ↦ (err e, closer)
    | ok rc ↦ elim (decoder_for rc) [
      | none ↦ (err (codes "encode: can't detect encoding"), closer)
      | some dec ↦ decoder (decs ++ dec ∷ []) (closer ++ rc ∷ []) files
    ]
  ]

-- `multiCloser.Close`: the errors of all files.
unfoldable pub close_all : (Opened → Option Text) → List Opened → List Text
close_all close [] = []
close_all close (c ∷ mc) = elim (close c) [
  | none ↦ close_all close mc
  | some e ↦ e ∷ close_all close mc
]
