-- ===== src/Servers/Http.antt =====
-- The way of a request through the HTTP server: handle_http_connection, extract_host_from_request and the first
-- part of handle_localup_request of crates/localup-server-tcp/src/server.rs.
pub mod Gateway
use localup.Base.{
  Option, none, some, List, if◌then◌else◌, is_empty, Bytes, Text, codes, split_parts, Result, ok,
  err, ◌>>=◌, ◌>>◌, ensure, map_err, ok_or,
}
use localup.Router.Registry.{
  RouteKey, http_host, RouteTarget, is_ip_allowed, RouteRegistry, lookup_route,
}
use localup.Proto.IpFilter.{SocketAddr}
use localup.Control.Connections.{Connections}
use localup.Servers.Requests.{
  Texts, lines, strip_prefix, Reply, no_host, not_found, denied, not_configured, closed, Forward,
  to_tunnel, to_address, host_value, request_path, Challenges, acme, continue, find_connection,
}

-- The text up to the port, if there is one.
unfoldable pub extract_host_from_request : Texts → List Text → Option Text
extract_host_from_request t request = elim (host_value t request) [
  | none ↦ none
  | some host ↦ some (split_parts b':' host).0
]

-- A target that is not a tunnel is an address to connect to.
abbrev pub forward :
    Texts → Option Connections → RouteTarget → Bytes → Option Text → Result Reply Forward
forward t manager target buffer none = ok (to_address target.target_addr)
forward t manager target buffer (some localup_id) = do
  manager' ← ok_or not_configured manager
  connection ← find_connection t manager' localup_id buffer
  ok (to_tunnel connection)

unfoldable pub route_request :
    Texts
    → Challenges
    → Option Connections
    → RouteRegistry
    → SocketAddr
    → Bytes
    → Result Reply Forward
route_request t challenges manager registry peer buffer = do
  let request = lines (t.from_utf8_lossy buffer)
  host ← ok_or no_host (extract_host_from_request t request)
  continue (acme challenges host (request_path t request))
  target ← map_err (λ _. not_found) (lookup_route registry (http_host host))
  ensure (is_ip_allowed target peer) denied
  forward t manager target buffer (strip_prefix (codes "tunnel:") target.target_addr)

unfoldable pub handle_http_connection :
    Texts
    → Challenges
    → Option Connections
    → RouteRegistry
    → SocketAddr
    → Bytes
    → Result Reply Forward
handle_http_connection t challenges manager registry peer buffer =
    if is_empty buffer then err closed else route_request t challenges manager registry peer buffer
