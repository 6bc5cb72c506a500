-- ===== src/Servers/Tests.antt =====
-- One request to each server.
use localup.Base.{
  ◌≡◌, ◌↔◌, true, none, some, [], ◌∷◌, ◌++◌, nat_eq, list_eq, Bytes, codes, split, ok,
}
use localup.Proto.IpFilter.{v4, SocketAddr}
use localup.Router.Registry.{http_host, RouteRegistry}
use localup.HttpAuth.{bearer_config}
use localup.Control.Connections.{Connections}
use localup.Servers.Requests.{Texts, to_tunnel}
use localup.Servers.Https
use localup.Servers.Https.Gateway as HttpsGateway
use localup.Servers.Https.Gateway.{handle_connection_iff}
use localup.Servers.Http
use localup.Servers.Http.Gateway as HttpGateway
use localup.Servers.Http.Gateway.{handle_http_connection_iff}

abbrev ascii : Texts
ascii = record {
  from_utf8_lossy = λ b. b;
  to_lowercase = λ s. s;
  trim = λ s. s;
  split_whitespace = λ s. split b' ' s;
  decode_base64 = λ s. none;
}

abbrev registry : RouteRegistry
registry = record {
  routes =
      (
        http_host (codes "app.relay.dev"),
        record {
          localup_id = codes "t";
          target_addr = codes "tunnel:t";
          metadata = none;
          ip_filter = record { allowlist = []; networks = [] };
        },
      )
      ∷ [];
  wildcard_routes = [];
}

abbrev connections : Connections
connections =
    (
      codes "t",
      record {
        localup_id = codes "t";
        endpoints = [];
        connection = 7;
        tcp_data_callback = none;
        http_auth = bearer_config (codes "secret" ∷ []);
        auth_token = none;
      },
    )
    ∷ []

abbrev peer : SocketAddr
peer = record { ip = v4 167772161; port = 4000 }

abbrev request : Bytes
request = codes "GET / HTTP/1.1" ++ (10 ∷ codes "host:app.relay.dev")

handle_connection_iff_example :
    (Https.handle_connection ascii none (some connections) true registry peer request
      ≡ ok (to_tunnel 7))
    ↔ HttpsGateway.IsServed ascii none (some connections) true registry peer request 7
handle_connection_iff_example =
    handle_connection_iff ascii none (some connections) true registry peer request 7

handle_http_connection_iff_example :
    (Http.handle_http_connection ascii none (some connections) registry peer request
      ≡ ok (to_tunnel 7))
    ↔ HttpGateway.IsServed ascii none (some connections) registry peer request (to_tunnel 7)
handle_http_connection_iff_example =
    handle_http_connection_iff ascii none (some connections) registry peer request (to_tunnel 7)
