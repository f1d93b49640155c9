-- ===== src/Results/Csv.antt =====
-- lib/results.go: the rows of `NewCSVEncoder` and `NewCSVDecoder`. `csv.Writer` and `csv.Reader` turn rows into
-- text and back; they are not modelled.
pub mod RoundTrip
use vegeta.Prelude.{
  ℕ, zero, suc, Bool, true, false, Option, none, some, List, [], ◌∷◌, ◌++◌, if◌then◌else◌, get_or,
}
use vegeta.Prelude.Int.{ℤ, int64}
use vegeta.Prelude.Text.{Text, is_empty}
use vegeta.Decimal.{format_int, format_uint, parse_int, parse_uint}
use vegeta.Outcome.{Fallible, ok, err, ◌>>=◌}
use vegeta.Results.{Header, Result}

-- What `Decode` reports, apart from the error of the reader.
pub data CsvError : Type 0 where
  not_a_number not_base64 bad_headers : CsvError

-- A value, or the error.
unfoldable pub or_else : {A : Type 0} → CsvError → Option A → Fallible CsvError A
or_else e none = err e
or_else e (some a) = ok a

-- What the packages base64, net/http and textproto do: encode and decode bytes, write a header, and
-- read one from text in base64.
pub record Codec : Type 0 where
  pub encode64 : Text → Text
  pub decode64 : Text → Option Text
  pub write_header : Header → Text
  pub read_header64 : Text → Option Header

module _ (codec : Codec) where
  open codec use {encode64, decode64, write_header, read_header64}

  -- `headerBytes`.
  unfoldable pub header_bytes : Option Header → Text
  header_bytes none = []
  header_bytes (some h) = write_header h ++ 13 ∷ 10 ∷ []

  -- The row that the encoder writes.
  unfoldable pub encode_row : Result → List Text
  encode_row r =
      format_int r.timestamp
      ∷ format_uint r.code
      ∷ format_int r.latency
      ∷ format_uint r.bytes_out
      ∷ format_uint r.bytes_in
      ∷ r.error
      ∷ encode64 r.body
      ∷ r.attack
      ∷ format_uint r.seq
      ∷ r.method
      ∷ r.url
      ∷ encode64 (header_bytes r.headers)
      ∷ []

  -- The last column: an empty one leaves the headers as they were.
  unfoldable pub decode_headers : Option Header → Text → Fallible CsvError (Option Header)
  decode_headers before column =
      if is_empty column
      then ok before
      else (or_else bad_headers (read_header64 column) >>= (λ h. ok (some h)))

  -- What the decoder makes of a row of 12 columns and the result that it writes into. What a failing call has
  -- already written is not modelled.
  unfoldable pub decode_row : Result → List Text → Fallible CsvError Result
  unfolding or_else decode_headers
  decode_row r rec = or_else not_a_number (parse_int (get_or rec 0 [])) >>= (λ ts.
      or_else not_a_number (parse_uint 16 (get_or rec 1 [])) >>= (λ code.
        or_else not_a_number (parse_int (get_or rec 2 [])) >>= (λ latency.
          or_else not_a_number (parse_uint 64 (get_or rec 3 [])) >>= (λ bytes_out.
            or_else not_a_number (parse_uint 64 (get_or rec 4 [])) >>= (λ bytes_in.
              or_else not_base64 (decode64 (get_or rec 6 [])) >>= (λ body.
                or_else not_a_number (parse_uint 64 (get_or rec 8 [])) >>= (λ seq.
                  decode_headers r.headers (get_or rec 11 []) >>= (λ headers. ok (record {
                    attack = get_or rec 7 [];
                    seq = seq;
                    code = code;
                    timestamp = ts;
                    latency = latency;
                    bytes_out = bytes_out;
                    bytes_in = bytes_in;
                    error = get_or rec 5 [];
                    body = body;
                    method = get_or rec 9 [];
                    url = get_or rec 10 [];
                    headers = headers;
                  })))))))))
