-- ===== src/Results/Csv/RoundTrip.antt =====
-- A result is decoded from the row that it is encoded as.
use vegeta.Prelude.{ℕ, ◌^◌, ◌<◌, ◌≡◌, false, Option, none, some, [], ◌∷◌, ◌++◌, arith}
use vegeta.Prelude.Int.{IsInt64}
use vegeta.Prelude.Text.{Text, is_empty}
use vegeta.Decimal.RoundTrip.{parse_int-format_int, parse_uint-format_uint}
use vegeta.Outcome.{ok}
use vegeta.Results.{Header, Result}
use vegeta.Results.Csv.{Codec, or_else, header_bytes, encode_row, decode_headers, decode_row}

-- The fields fit their machine types.
pub record IsMachine (r : Result) : Type 0 where
  pub timestamp : IsInt64 r.timestamp
  pub latency : IsInt64 r.latency
  pub code : r.code < 2 ^ 16
  pub seq : r.seq < 2 ^ 64
  pub bytes_out : r.bytes_out < 2 ^ 64
  pub bytes_in : r.bytes_in < 2 ^ 64

-- What base64 and the header format give back: any bytes; nothing for nothing; and, of a header that was
-- written with an empty line behind it, the header, if it has names and values that survive the format.
pub record IsCodec (codec : Codec) : Type 0 where
  pub bytes : (b : Text) → codec.decode64 (codec.encode64 b) ≡ some b
  pub nothing : codec.encode64 [] ≡ []
  pub something : (c : ℕ) (b : Text) → is_empty (codec.encode64 (c ∷ b)) ≡ false

-- The header that the decoder reads back, if there is one.
abbrev pub Survives : Codec → Option Header → Type 0
Survives codec none = Unit
Survives codec (some h) =
    codec.read_header64 (codec.encode64 (header_bytes codec (some h))) ≡ some h

-- The headers afterwards: those of the row, or those from before.
abbrev pub or_before : Option Header → Option Header → Option Header
or_before none before = before
or_before (some h) before = some h

module _ (codec : Codec) (good : IsCodec codec) where
  not_empty : (a : Text) (c : ℕ) (b : Text) → is_empty (codec.encode64 (a ++ c ∷ b)) ≡ false
  not_empty [] c b = good.something c b
  not_empty (d ∷ a) c b = good.something d (a ++ c ∷ b)

  decode_headers-header_bytes :
      (before headers : Option Header)
      → Survives codec headers
      → decode_headers codec before (codec.encode64 (header_bytes codec headers))
        ≡ ok (or_before headers before)
  unfolding decode_headers header_bytes or_else
  decode_headers-header_bytes before none s = rw good.nothing
  decode_headers-header_bytes before (some h) s =
      rw (not_empty (codec.write_header h) 13 (10 ∷ []), s)

  -- Of a result whose fields fit their types and whose header the format keeps, the decoder reads
  -- every field back from the row that the encoder writes. The headers are read back too, except that
  -- a result without a header leaves the headers that were there before.
  pub decode_row-encode_row :
      (before r : Result)
      → IsMachine r
      → Survives codec r.headers
      → decode_row codec before (encode_row codec r)
        ≡ ok (record r { headers = or_before r.headers before.headers })
  unfolding decode_row encode_row
  decode_row-encode_row before r w s = rw (
    parse_int-format_int r.timestamp w.timestamp,
    parse_uint-format_uint 16 r.code w.code (omega (arith, w.code)),
    parse_int-format_int r.latency w.latency,
    parse_uint-format_uint 64 r.bytes_out w.bytes_out w.bytes_out,
    parse_uint-format_uint 64 r.bytes_in w.bytes_in w.bytes_in,
    good.bytes r.body,
    parse_uint-format_uint 64 r.seq w.seq w.seq,
    decode_headers-header_bytes before.headers r.headers s,
  )
