-- ===== src/Attack/Settings.antt =====
-- lib/attack.go: `NewAttacker` and its options. What a value of the packages net and net/http does is not
-- modelled, only which values the Attacker holds.
pub mod Command
mod Tests
use vegeta.Prelude.{
  ℕ, zero, suc, ◌+◌, ◌-◌, ◌*◌, ◌^◌, ◌<◌, Bool, true, false, not, ◌&&◌, ◌||◌, Option, none, some,
  List, [], ◌∷◌, if◌then◌else◌, leb, ltb,
}
use vegeta.Prelude.Int.{ℤ, pos, negsuc, ltb_ℤ, ◌==ℤ◌}
use vegeta.Prelude.Text.{Text, is_empty}
use vegeta.Outcome.{Outcome, returns, panics}
use vegeta.Results.{Header}

-- The `net.IPAddr` of `LocalAddr`.
pub record LocalAddress : Type 0 where
  pub ip : Text
  pub zone : Text

-- What the options set of a `net.Dialer`.
pub record NetDialer : Type 0 where
  pub local_addr : LocalAddress
  pub keep_alive : ℤ

-- What a `DialContext` does: dial with the Attacker's dialer, dial a unix socket, or look up or translate the
-- address and go on with the dial function that was there before.
pub data Dialing : Type 0 where
  by_dialer : Dialing
  by_socket : Text → Dialing
  cached : ℤ → Dialing → Dialing
  connected : List (Text × List Text) → Dialing → Dialing

-- What the options read and set of a `tls.Config`.
pub record TlsConfig : Type 0 where
  pub insecure_skip_verify : Bool
  pub session_tickets_disabled : Bool
  pub has_session_cache : Bool

-- How the transport stands to HTTP/2: as net/http decides, configured for it, or with an empty `TLSNextProto`.
pub data Http2 : Type 0 where
  unset configured refused : Http2

-- An `http.Transport`. A nil `Proxy` stands for no proxy, and a nil `DialContext` for that of the
-- Attacker's dialer.
pub record HttpTransport : Type 0 where
  pub proxy : Option Text
  pub dial : Option Dialing
  pub tls : Option TlsConfig
  pub max_idle_conns : ℤ
  pub max_conns : ℤ
  pub disable_keep_alives : Bool
  pub http2 : Http2
  pub proxy_header : Option Header

-- The `Transport` of the client: an `http.Transport`, the `http2.Transport` of `H2C`, which dials with the
-- `http.Transport` before it, or another one of a client that the caller brings.
pub data Transport : Type 0 where
  http1 : HttpTransport → Transport
  h2c : HttpTransport → Transport
  foreign : Transport

pub record Attacker : Type 0 where
  pub dialer : NetDialer
  pub transport : Transport
  pub timeout : ℤ
  pub redirects : ℤ
  pub check_redirect : Option ℤ  -- the `n` of the closure
  pub workers : ℕ
  pub max_workers : ℕ
  pub max_body : ℤ
  pub chunked : Bool

-- The client that `Client` brings: its transport, its timeout, and its redirect policy.
pub record HttpClient : Type 0 where
  pub transport : Transport
  pub timeout : ℤ
  pub check_redirect : Option ℤ

pub data Setting : Type 0 where
  set_workers : ℕ → Setting
  set_max_workers : ℕ → Setting
  set_connections : ℤ → Setting
  set_max_connections : ℤ → Setting
  set_chunked_body : Bool → Setting
  set_redirects : ℤ → Setting
  set_proxy : Text → Setting
  set_timeout : ℤ → Setting
  set_local_addr : LocalAddress → Setting
  set_keep_alive : Bool → Setting
  set_tls_config : Option TlsConfig → Setting
  set_http2 : Bool → Setting
  set_h2c : Bool → Setting
  set_max_body : ℤ → Setting
  set_unix_socket : Text → Setting
  set_session_tickets : Bool → Setting
  set_client : HttpClient → Setting
  set_proxy_header : Header → Setting
  set_connect_to : List (Text × List Text) → Setting
  set_dns_caching : ℤ → Setting

-- The constants.
abbrev pub default_redirects : ℤ
default_redirects = pos 10

abbrev pub default_timeout : ℤ
default_timeout = pos 30_000_000_000

abbrev pub default_connections : ℤ
default_connections = pos 10_000

abbrev pub default_max_connections : ℤ
default_max_connections = pos 0

abbrev pub default_workers : ℕ
default_workers = 10

abbrev pub default_max_workers : ℕ
default_max_workers = 2 ^ 64 - 1

abbrev pub default_max_body : ℤ
default_max_body = negsuc 0

abbrev pub no_follow : ℤ
no_follow = negsuc 0

abbrev pub default_local_addr : LocalAddress
default_local_addr = record { ip = b'0' ∷ b'.' ∷ b'0' ∷ b'.' ∷ b'0' ∷ b'.' ∷ b'0' ∷ []; zone = [] }

abbrev pub default_tls_config : TlsConfig
default_tls_config = record {
  insecure_skip_verify = false;
  session_tickets_disabled = false;
  has_session_cache = false;
}

-- `a.client.Transport.(*http.Transport)`, which panics on another transport.
unfoldable pub must_http : (HttpTransport → HttpTransport) → Attacker → Transport → Outcome Attacker
must_http f a (http1 tr) = returns (record a { transport = http1 (f tr) })
must_http f a _ = panics

-- The same with `ok`, which leaves another transport alone.
unfoldable pub if_http : (HttpTransport → HttpTransport) → Attacker → Transport → Outcome Attacker
if_http f a (http1 tr) = returns (record a { transport = http1 (f tr) })
if_http f a _ = returns a

-- `H2C`.
unfoldable pub replace_transport : Bool → Attacker → Transport → Outcome Attacker
replace_transport enabled a (http1 tr) =
    returns (record a { transport = if enabled then h2c tr else http1 tr })
replace_transport enabled a _ = panics

-- The dial function that `ConnectTo` and `DNSCaching` go on with.
unfoldable pub dial_of : HttpTransport → Dialing
dial_of tr = elim (tr.dial) [ none ↦ by_dialer | some d ↦ d ]

-- The two assignments of `SessionTickets`, through a pointer that may be nil.
unfoldable pub allow_tickets : Attacker → Transport → Outcome Attacker
allow_tickets a (http1 tr) = elim (tr.tls) [
  | none ↦ panics
  | some cf ↦ returns (record a {
    transport = http1 (record tr {
      tls = some (record cf { session_tickets_disabled = false; has_session_cache = true });
    });
  })
]
allow_tickets a _ = panics

-- One option.
unfoldable pub apply : Setting → Attacker → Outcome Attacker
unfolding must_http if_http replace_transport allow_tickets dial_of
apply (set_workers n) a = returns (record a { workers = n })
apply (set_max_workers n) a = returns (record a { max_workers = n })
apply (set_connections n) a = must_http (λ tr. record tr { max_idle_conns = n }) a a.transport
apply (set_max_connections n) a = must_http (λ tr. record tr { max_conns = n }) a a.transport
apply (set_chunked_body b) a = returns (record a { chunked = b })
apply (set_redirects n) a = returns (record a { redirects = n; check_redirect = some n })
apply (set_proxy p) a = must_http (λ tr. record tr { proxy = some p }) a a.transport
apply (set_timeout d) a = returns (record a { timeout = d })
apply (set_local_addr addr) a =
    must_http (λ tr. record tr { dial = some by_dialer })
      (record a { dialer = record (a.dialer) { local_addr = addr } }) a.transport
apply (set_keep_alive keepalive) a =
    must_http
      (λ tr. record tr {
        disable_keep_alives = not keepalive;
        dial = if keepalive then tr.dial else some by_dialer;
      })
      (record a {
        dialer = record (a.dialer) {
          keep_alive = if keepalive then a.dialer.keep_alive else pos 0;
        };
      })
      a.transport
apply (set_tls_config c) a = must_http (λ tr. record tr { tls = c }) a a.transport
apply (set_http2 enabled) a =
    must_http (λ tr. record tr { http2 = if enabled then configured else refused }) a a.transport
apply (set_h2c enabled) a = replace_transport enabled a a.transport
apply (set_max_body n) a = returns (record a { max_body = n })
apply (set_unix_socket socket) a =
    if_http
      (λ tr. record tr { dial = if is_empty socket then tr.dial else some (by_socket socket) }) a
      a.transport
apply (set_session_tickets enabled) a = if enabled then allow_tickets a a.transport else returns a
apply (set_client c) a =
    returns
      (record a { transport = c.transport; timeout = c.timeout; check_redirect = c.check_redirect })
apply (set_proxy_header h) a = if_http (λ tr. record tr { proxy_header = some h }) a a.transport
apply (set_connect_to m) a =
    if_http
      (λ tr. record tr { dial = if is_empty m then tr.dial else some (connected m (dial_of tr)) }) a
      a.transport
apply (set_dns_caching ttl) a =
    if_http
      (λ tr. record tr {
        dial = if ltb_ℤ ttl (pos 0) then tr.dial else some (cached ttl (dial_of tr));
      })
      a a.transport

-- The loop over the options.
unfoldable pub apply_all : List Setting → Attacker → Outcome Attacker
unfolding apply
apply_all [] a = returns a
apply_all (o ∷ os) a = elim (apply o a) [ panics ↦ panics | returns a1 ↦ apply_all os a1 ]

-- The Attacker that `NewAttacker` starts from. `proxy` is `http.ProxyFromEnvironment`.
abbrev pub fresh_transport : Text → HttpTransport
fresh_transport proxy = record {
  proxy = some proxy;
  dial = some by_dialer;
  tls = some default_tls_config;
  max_idle_conns = default_connections;
  max_conns = default_max_connections;
  disable_keep_alives = false;
  http2 = unset;
  proxy_header = none;
}

abbrev pub fresh_attacker : Text → Attacker
fresh_attacker proxy = record {
  dialer = record { local_addr = default_local_addr; keep_alive = pos 30_000_000_000 };
  transport = http1 (fresh_transport proxy);
  timeout = default_timeout;
  redirects = pos 0;
  check_redirect = none;
  workers = default_workers;
  max_workers = default_max_workers;
  max_body = default_max_body;
  chunked = false;
}

unfoldable pub new_attacker : Text → List Setting → Outcome Attacker
unfolding apply_all
new_attacker proxy opts = apply_all opts (fresh_attacker proxy)

pub data Redirect : Type 0 where
  follow : Redirect
  use_last_response : Redirect
  stop_after : ℤ → Redirect

-- The `CheckRedirect` that `Redirects` sets, of the number of requests so far.
unfoldable pub check_redirect : ℤ → ℕ → Redirect
check_redirect n via =
    if n ==ℤ no_follow
    then use_last_response
    else if ltb_ℤ n (pos via)
    then stop_after n
    else follow
