-- ===== src/Flags.antt =====
-- flags.go: the values that the command line sets.
pub mod Meaning
mod Tests
use vegeta.Prelude.{
  ℕ, zero, suc, ◌+◌, ◌-◌, ◌^◌, Bool, true, false, not, ◌||◌, ◌&&◌, Option, none, some, List, [],
  ◌∷◌, ◌++◌, if◌then◌else◌, leb, ltb, ◌==◌, length,
}
use vegeta.Prelude.Int.{ℤ, pos, negsuc, ◌==ℤ◌}
use vegeta.Prelude.Text.{Text, text_eq, text_key, codes, is_empty, trim_space, split, split2}
use vegeta.Prelude.Map.{lookup, assign}
use vegeta.Decimal.{parse_int}
use vegeta.Outcome.{Fallible, ok, err}
use vegeta.Results.{Header, values_at}
use vegeta.Targets.{append_values}
use vegeta.Targets.Http.{header_parts}
use vegeta.Pacer.Constant.{ConstantPacer}

pub data FlagError : Type 0 where
  wrong_format bad_number bad_duration bad_size overflow bad_source bad_destination : FlagError

-- `headers.Set`, with the parts of its value trimmed and checked as those of a header line.
unfoldable pub set_header : Header → Text → Fallible FlagError Header
set_header h value = elim (header_parts (split2 b':' value)) [
  | none ↦ err wrong_format
  | some (key, val) ↦ ok (append_values key (val ∷ []) h)
]

-- `rateFlag.Set` with the text for a missing duration, and the units that stand for one of their kind.
unfoldable pub duration_text : List Text → Text
duration_text (f ∷ d ∷ _) = d
duration_text _ = codes "1s"

unfoldable pub freq_text : List Text → Text
freq_text (f ∷ _) = f
freq_text _ = []

unfoldable pub is_unit : Text → Bool
is_unit d =
    text_eq d (codes "ns")
    || text_eq d (codes "us")
    || text_eq d (0xb5 ∷ codes "s")
    || text_eq d (codes "ms")
    || text_eq d (codes "s")
    || text_eq d (codes "m")
    || text_eq d (codes "h")

unfoldable pub with_one : Text → Text
with_one d = if is_unit d then b'1' ∷ d else d

-- `strconv.Atoi`, of an int of 64 bits, is `parse_int`; `time.ParseDuration` and datasize's
-- `UnmarshalText` are parameters.
module _ (parse_duration : Text → Option ℤ) (parse_size : Text → Option ℕ) where
  -- `rateFlag.Set` behind the frequency.
  unfoldable pub set_per : ConstantPacer → Text → Fallible FlagError ConstantPacer
  set_per rate text = elim (parse_duration (with_one text)) [
    | none ↦ err bad_duration
    | some per ↦ ok (record rate { per = per })
  ]

  -- `rateFlag.Set`.
  unfoldable pub set_rate : ConstantPacer → Text → Fallible FlagError ConstantPacer
  set_rate rate v =
      let ps = split2 b'/' v in
      if text_eq v (codes "infinity") then ok rate else elim (parse_int (freq_text ps)) [
        | none ↦ err bad_number
        | some freq ↦
            if freq ==ℤ pos 0
            then ok (record rate { freq = freq })
            else set_per (record rate { freq = freq }) (duration_text ps)
      ]

  -- `maxBodyFlag.Set`.
  unfoldable pub set_max_body : Text → Fallible FlagError ℤ
  set_max_body v = if text_eq v (codes "-1") then ok (negsuc 0) else elim (parse_size v) [
    | none ↦ err bad_size
    | some ds ↦ if ltb (2 ^ 63 - 1) ds then err overflow else ok (pos ds)
  ]

  -- `dnsTTLFlag.Set`.
  unfoldable pub set_dns_ttl : Text → Fallible FlagError ℤ
  set_dns_ttl v =
      if text_eq v (codes "-1")
      then ok (negsuc 0)
      else elim (parse_duration v) [ none ↦ err bad_duration | some d ↦ ok d ]

-- `connectToFlag.Set` over a map that is there; whether `net.SplitHostPort` takes an address is a parameter.
module _ (is_host_port : Text → Bool) where
  abbrev pub joined : Text → Text → Text
  joined a b = a ++ b':' ∷ b

  unfoldable pub connect_parts :
      List (Text × List Text) → List Text → Fallible FlagError (List (Text × List Text))
  connect_parts m (a ∷ b ∷ c ∷ d ∷ []) =
      if not (is_host_port (joined a b))
      then err bad_source
      else if not (is_host_port (joined c d))
      then err bad_destination
      else ok (append_values (joined a b) (joined c d ∷ []) m)
  connect_parts m _ = err wrong_format

  unfoldable pub set_connect_to :
      List (Text × List Text) → Text → Fallible FlagError (List (Text × List Text))
  set_connect_to m s = connect_parts m (split b':' s)
