-- ===== src/Attack/Settings/Tests.antt =====
-- The options of `vegeta attack -keepalive=false -unix-socket=/s -dns-ttl=1s`.
use vegeta.Prelude.{◌≡◌, true, false, [], refl}
use vegeta.Prelude.Int.{pos, negsuc}
use vegeta.Prelude.Text.{codes}
use vegeta.Outcome.{panics}
use vegeta.Attack.Settings.{
  default_local_addr, default_tls_config, default_max_workers, new_attacker, by_socket, cached,
}
use vegeta.Attack.Settings.Command.{
  AttackOpts, settings_of, whole_dial, made_attacker, new_attacker-settings_of,
}

abbrev options : AttackOpts
options = record {
  redirects = pos 10;
  timeout = pos 30_000_000_000;
  laddr = default_local_addr;
  tls = default_tls_config;
  workers = 10;
  max_workers = default_max_workers;
  keepalive = false;
  connections = pos 10_000;
  max_connections = pos 0;
  http2 = true;
  h2c_enabled = false;
  max_body = negsuc 0;
  unix_socket = codes "/s";
  proxy_headers = [];
  chunked = false;
  dns_ttl = pos 1_000_000_000;
  connect_to = [];
  session_tickets = false;
}

cached_socket : whole_dial options ≡ cached (pos 1_000_000_000) (by_socket (codes "/s"))
cached_socket = refl

h2c_without_tickets :
    made_attacker [] (record options { h2c_enabled = true; session_tickets = true }) ≡ panics
h2c_without_tickets = refl

new_attacker-settings_of_example :
    new_attacker (codes "http://proxy") (settings_of options)
    ≡ made_attacker (codes "http://proxy") options
new_attacker-settings_of_example = new_attacker-settings_of (codes "http://proxy") options
