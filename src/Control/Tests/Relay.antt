-- ===== src/Control/Tests/Relay.antt =====
-- A relay where another tunnel has a route, and a client that connects to it.
use localup.Base.{ℕ, ◌+◌, Bool, true, none, some, [], ◌∷◌, nat_eq, list_eq, Text, codes}
use localup.Proto.IpFilter.{IpFilter}
use localup.Router.Registry.{http_host, RouteRegistry, key_eq}
use localup.ExitNode.Ports.{PortAllocator, with_reservation_ttl}
use localup.HttpAuth.{no_config}
use localup.Control.Endpoints.{http, tcp, Ports}
use localup.Control.Handler.{Handler, Shared, route_target}
use localup.Control.Clients.{Connect, Relay, Environment}

abbrev pub any_filter : IpFilter
any_filter = record { allowlist = []; networks = [] }

abbrev pub relay_handler : Handler
relay_handler = record {
  domain = codes "relay.dev";
  db = none;
  tcp_proxy_spawner = some (λ id port. port + 1);
}

-- Another tunnel has the host `app.relay.dev`.
abbrev pub occupied : RouteRegistry
occupied = record {
  routes =
      (
        http_host (codes "app.relay.dev"),
        route_target (codes "other") (codes "via-tunnel") any_filter,
      )
      ∷ [];
  wildcard_routes = [];
}

abbrev pub ports : PortAllocator
ports = with_reservation_ttl 9000 9010 300

abbrev pub shared : Shared
shared = record {
  route_registry = occupied;
  port_allocator = some ports;
  task_tracker = record { tasks = []; aborted = [] };
}

abbrev pub relay : Relay (Unit {0})
relay = record { shared = shared; connections = []; provider_state = tt }

abbrev pub all_available : ℕ → ℕ → Bool
all_available attempt port = true

abbrev pub zero_hash : Text → ℕ
zero_hash id = 0

abbrev pub environment : Environment (Unit {0})
environment = record {
  is_port_available = all_available;
  hash = zero_hash;
  subdomain_hash = 12345;
  from_str = λ s. none;
  sha256 = λ s. s;
  now = 100;
  sent = true;
}

abbrev pub server_ports : Ports
server_ports = record { tls_port = none; https_port = some 8443 }

abbrev pub request : Connect
request = record {
  localup_id = codes "mine";
  auth_token = codes "token";
  protocols = http (some (codes "app")) none ∷ tcp 0 ∷ [];
  ip_allowlist = [];
  http_auth = no_config;
  quic = some 5;
}
