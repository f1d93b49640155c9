-- ===== src/Attack/Exchange.antt =====
-- lib/attack.go, `hit` behind its critical section, and lib/targets.go, `Target.Request`.
pub mod Outcomes
use vegeta.Prelude.{
  ℕ, zero, suc, ◌+◌, ◌%◌, ◌^◌, Bool, true, false, not, ◌&&◌, ◌||◌, Option, none, some, List, [],
  ◌∷◌, ◌++◌, ltb, leb, ◌==◌, if◌then◌else◌, length, take,
}
use vegeta.Prelude.Int.{ℤ, pos, negsuc, ltb_ℤ, ◌==ℤ◌, uint64, pos_part}
use vegeta.Prelude.Text.{Text, text_key, codes, is_empty}
use vegeta.Prelude.Map.{assign}
use vegeta.Decimal.{format_uint}
use vegeta.Outcome.{Fallible, ok, err}
use vegeta.Results.{Header, Result, values_at}
use vegeta.Targets.{Target}
use vegeta.Attack.{Hit}

-- What the program reads and writes of an `http.Request`.
pub record Request : Type 0 where
  pub host : Text
  pub header : Header
  pub transfer_encoding : List Text
  pub content_length : ℤ  -- int64

-- What it reads of an `http.Response`: the body gives its bytes and then ends, or fails with an error.
pub record Response : Type 0 where
  pub status : Text
  pub status_code : ℕ
  pub header : Header
  pub bytes : Text
  pub broken : Option Text

-- The fields of the Attacker and of the attack that `hit` reads.
pub record Options : Type 0 where
  pub name : Text
  pub chunked : Bool
  pub max_body : ℤ  -- int64

-- `Header.Get` under a name in its canonical form.
unfoldable pub first_value : List Text → Text
first_value [] = []
first_value (v ∷ vs) = v

-- The loop that copies the target's headers into the request's.
unfoldable pub copy_headers : Header → Header → Header
copy_headers [] h = h
copy_headers ((k, vs) ∷ rest) h = copy_headers rest (assign k vs h)

unfoldable pub set_host : Text → Request → Request
set_host host req = if is_empty host then req else record req { host = host }

-- The bytes that `io.ReadAll` gets from the body, or from the body behind `io.LimitReader`.
unfoldable pub limited : ℤ → Text → Text
limited (negsuc n) bytes = bytes
limited (pos n) bytes = take n bytes

-- The result with an error's text, as the deferred function sets it.
abbrev pub failed : Text → Result → Result
failed e r = record r { error = e }

-- Reading the response: the body, the rest of it, and then the sizes, the status and the headers.
unfoldable pub read_response : Options → Request → Response → Result → Result
read_response o req resp r =
    let body = limited o.max_body resp.bytes in
    let code = resp.status_code % 2 ^ 16 in
    elim (resp.broken) [
      | some e ↦ failed e (record r { body = body })
      | none ↦ record r {
        body = body;
        bytes_in = length body;
        bytes_out =
            if req.content_length ==ℤ negsuc 0 then r.bytes_out else uint64 req.content_length;
        code = code;
        error = if ltb code 200 || leb 400 code then resp.status else r.error;
        headers = some resp.header;
      }
    ]

-- The headers that mark the request, and its transfer encoding.
unfoldable pub mark : Options → ℕ → Request → Request
mark o seq req =
    let named =
      if is_empty o.name
      then req.header
      else assign (codes "X-Vegeta-Attack") (o.name ∷ []) req.header in
    record req {
      header = assign (codes "X-Vegeta-Seq") (format_uint seq ∷ []) named;
      transfer_encoding =
          if o.chunked
          then req.transfer_encoding ++ codes "chunked" ∷ []
          else req.transfer_encoding;
    }

-- `http.NewRequest` and `Client.Do` are parameters; an error is its text.
module _ (new_request : Text → Text → Text → Fallible Text Request)
    (client_do : Request → Fallible Text Response) where
  -- `Request`.
  unfoldable pub target_request : Target → Fallible Text Request
  target_request t = elim (new_request t.method t.url t.body) [
    | err e ↦ err e
    | ok req ↦
        let header = copy_headers t.header req.header in
        ok (
          set_host (first_value (values_at (codes "Host") header)) (record req { header = header }))
  ]

  -- `hit` from the request on.
  unfoldable pub exchange : Options → Fallible Text Request → Result → Result
  exchange o (err e) r = failed e r
  exchange o (ok req) r =
      let sent = mark o r.seq req in
      elim (client_do sent) [ err e ↦ failed e r | ok resp ↦ read_response o sent resp r ]

  -- The result as the critical section leaves it; `began` is when the attack did.
  abbrev pub fresh : Options → ℤ → Hit → Result
  fresh o timestamp h = record {
    attack = o.name;
    seq = h.seq;
    code = 0;
    timestamp = timestamp;
    latency = pos 0;
    bytes_out = 0;
    bytes_in = 0;
    error = [];
    body = [];
    method = [];
    url = [];
    headers = none;
  }

  -- `hit`, with what the targeter gives: the result, but for its latency, and whether `Stop` was called.
  unfoldable pub hit : Options → ℤ → Hit → Fallible Text Target → Result × Bool
  hit o timestamp h (err e) = (failed e (fresh o timestamp h), true)
  hit o timestamp h (ok t) = (
    exchange o (target_request t) (record (fresh o timestamp h) { method = t.method; url = t.url }),
    false,
  )
