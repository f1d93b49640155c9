-- ===== src/Results/Tests.antt =====
-- Two decoders of lists, and the decoders of two formats.
use vegeta.Prelude.{Bool, false, if◌then◌else◌, ◌==◌, ℕ, ◌≡◌, ◌⊎◌, refl, arith, some, List, [], ◌∷◌}
use vegeta.Prelude.Text.{Text, codes}
use vegeta.Outcome.{Fallible, ok, err}
use vegeta.Results.Sample.{sample}
use vegeta.Results.Csv.{Codec, encode_row, decode_row}
use vegeta.Results.Csv.RoundTrip.{decode_row-encode_row}
use vegeta.Results.Detect.{decoder_for, decoder_for-first_success}
use vegeta.Results.RoundRobin.{RoundRobin, round_robin}
use vegeta.Results.RoundRobin.Fair.{Gave, AllEnded, round_robin-LosesNothing}

-- A decoder that takes the numbers of a list one by one; its error at the end of the list is `tt`.
abbrev take_next : List ℕ → List ℕ × Fallible (Unit {0}) ℕ
take_next [] = ([], err tt)
take_next (n ∷ ns) = (ns, ok n)

take_next-stays : (x x1 : List ℕ) (e : Unit {0}) → take_next x ≡ (x1, err e) → x1 ≡ x
take_next-stays [] x1 e h = cc
take_next-stays (n ∷ ns) x1 e h = absurd (cc)

abbrev two_inputs : RoundRobin (List ℕ)
two_inputs = record { inputs = [] ∷ (4 ∷ 6 ∷ []) ∷ []; seq = 0 }

round_robin-LosesNothing_example :
    Gave take_next two_inputs.inputs (round_robin take_next two_inputs)
    ⊎ AllEnded take_next two_inputs.inputs (round_robin take_next two_inputs)
round_robin-LosesNothing_example =
    round_robin-LosesNothing take_next two_inputs (take_next-stays _, (take_next-stays _, tt))
      (omega arith) (omega arith)

-- A codec that leaves bytes as they are and reads one header.
abbrev plain : Codec
plain = record {
  encode64 = λ b. b;
  decode64 = λ b. some b;
  write_header = λ h. codes "A: b";
  read_header64 = λ t. some ((codes "A", codes "b" ∷ []) ∷ []);
}

decode_row-encode_row_example :
    decode_row plain (sample 7 500 1 []) (encode_row plain (sample 0 200 10 []))
    ≡ ok (sample 0 200 10 [])
decode_row-encode_row_example =
    decode_row-encode_row plain
      (record { bytes = λ b. refl; nothing = refl; something = λ c b. refl }) (sample 7 500 1 [])
      (sample 0 200 10 [])
      (record {
        timestamp = record { above = omega arith; below = omega arith };
        latency = record { above = omega arith; below = omega arith };
        code = omega arith;
        seq = omega arith;
        bytes_out = omega arith;
        bytes_in = omega arith;
      })
      refl

-- A format for each first character; the first reads more of the input than the second.
abbrev sniff : ℕ → Text → ℕ × Bool
sniff c [] = (0, false)
sniff c (d ∷ s) = (if c == 1 then 2 else 1, c == d)

decoder_for-first_success_example :
    decoder_for sniff (1 ∷ 2 ∷ []) (2 ∷ 5 ∷ 6 ∷ []) ≡ some (2, 2 ∷ 5 ∷ 6 ∷ [])
decoder_for-first_success_example = decoder_for-first_success sniff (1 ∷ 2 ∷ []) (2 ∷ 5 ∷ 6 ∷ [])
