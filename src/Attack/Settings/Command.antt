-- ===== src/Attack/Settings/Command.antt =====
-- attack.go: the options that the command `vegeta attack` gives `NewAttacker`, and what becomes of them.
use vegeta.Prelude.{ℕ, Bool, true, false, not, none, some, List, [], ◌∷◌, if◌then◌else◌, ◌≡◌, arith}
use vegeta.Prelude.Int.{ℤ, pos, ltb_ℤ}
use vegeta.Prelude.Text.{Text, is_empty}
use vegeta.Outcome.{Outcome, returns, panics}
use vegeta.Results.{Header}
use vegeta.Attack.Settings.{
  LocalAddress, Dialing, by_dialer, by_socket, cached, connected, TlsConfig, configured, refused,
  HttpTransport, Transport, http1, h2c, Attacker, Setting, set_workers, set_max_workers,
  set_connections, set_max_connections, set_chunked_body, set_redirects, set_timeout,
  set_local_addr, set_keep_alive, set_tls_config, set_http2, set_h2c, set_max_body, set_unix_socket,
  set_session_tickets, set_proxy_header, set_connect_to, set_dns_caching, new_attacker,
}

-- The fields of `attackOpts` that `NewAttacker` is given, with the TLS configuration made of the files.
pub record AttackOpts : Type 0 where
  pub redirects : ℤ
  pub timeout : ℤ
  pub laddr : LocalAddress
  pub tls : TlsConfig
  pub workers : ℕ
  pub max_workers : ℕ
  pub keepalive : Bool
  pub connections : ℤ
  pub max_connections : ℤ
  pub http2 : Bool
  pub h2c_enabled : Bool
  pub max_body : ℤ
  pub unix_socket : Text
  pub proxy_headers : Header
  pub chunked : Bool
  pub dns_ttl : ℤ
  pub connect_to : List (Text × List Text)
  pub session_tickets : Bool

-- The arguments of `NewAttacker` in `attack`.
abbrev pub settings_of : AttackOpts → List Setting
settings_of o =
    set_redirects o.redirects
    ∷ set_timeout o.timeout
    ∷ set_local_addr o.laddr
    ∷ set_tls_config (some o.tls)
    ∷ set_workers o.workers
    ∷ set_max_workers o.max_workers
    ∷ set_keep_alive o.keepalive
    ∷ set_connections o.connections
    ∷ set_max_connections o.max_connections
    ∷ set_http2 o.http2
    ∷ set_h2c o.h2c_enabled
    ∷ set_max_body o.max_body
    ∷ set_unix_socket o.unix_socket
    ∷ set_proxy_header o.proxy_headers
    ∷ set_chunked_body o.chunked
    ∷ set_dns_caching o.dns_ttl
    ∷ set_connect_to o.connect_to
    ∷ set_session_tickets o.session_tickets
    ∷ []

-- How an attack without H2C dials: by the dialer or the socket, behind the cache and the translation,
-- each if it is wanted.
abbrev pub first_dial : AttackOpts → Dialing
first_dial o = if is_empty o.unix_socket then by_dialer else by_socket o.unix_socket

abbrev pub cached_dial : AttackOpts → Dialing
cached_dial o = if ltb_ℤ o.dns_ttl (pos 0) then first_dial o else cached o.dns_ttl (first_dial o)

abbrev pub whole_dial : AttackOpts → Dialing
whole_dial o =
    if is_empty o.connect_to then cached_dial o else connected o.connect_to (cached_dial o)

-- The TLS configuration with session tickets, if they are wanted.
abbrev pub ticketed : AttackOpts → TlsConfig
ticketed o =
    if o.session_tickets
    then record (o.tls) { session_tickets_disabled = false; has_session_cache = true }
    else o.tls

-- The transport up to the options behind `H2C`.
abbrev pub early_transport : Text → AttackOpts → HttpTransport
early_transport proxy o = record {
  proxy = some proxy;
  dial = some by_dialer;
  tls = some o.tls;
  max_idle_conns = o.connections;
  max_conns = o.max_connections;
  disable_keep_alives = not o.keepalive;
  http2 = if o.http2 then configured else refused;
  proxy_header = none;
}

abbrev pub late_transport : Text → AttackOpts → HttpTransport
late_transport proxy o = record (early_transport proxy o) {
  dial = some (whole_dial o);
  tls = some (ticketed o);
  proxy_header = some o.proxy_headers;
}

-- The rest of the Attacker.
abbrev pub attacker_with : AttackOpts → Transport → Attacker
attacker_with o transport = record {
  dialer = record {
    local_addr = o.laddr;
    keep_alive = if o.keepalive then pos 30_000_000_000 else pos 0;
  };
  transport = transport;
  timeout = o.timeout;
  redirects = o.redirects;
  check_redirect = some o.redirects;
  workers = o.workers;
  max_workers = o.max_workers;
  max_body = o.max_body;
  chunked = o.chunked;
}

-- What the options make: an Attacker that has every one of them; or with H2C, one that has none of the options
-- behind it that concern the transport; or, with H2C and session tickets, a panic.
abbrev pub made_attacker : Text → AttackOpts → Outcome Attacker
made_attacker proxy o =
    if o.h2c_enabled
    then (if o.session_tickets
        then panics
        else returns (attacker_with o (h2c (early_transport proxy o))))
    else returns (attacker_with o (http1 (late_transport proxy o)))

-- With the options of the command, in its order, `NewAttacker` makes an Attacker that has every one of
-- them: the dial function translates the address, then looks it up in the DNS cache, and then dials,
-- over the unix socket if there is one. With H2C the Attacker has the options up to `H2C` and those
-- that do not concern the transport, and not the unix socket, the proxy header, the DNS cache and the
-- translation of addresses; and with H2C and session tickets `NewAttacker` panics.
pub new_attacker-settings_of :
    (proxy : Text) (o : AttackOpts) → new_attacker proxy (settings_of o) ≡ made_attacker proxy o
unfolding new_attacker
new_attacker-settings_of proxy o = ground arith
