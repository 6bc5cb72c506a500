-- ===== src/Servers/Https.antt =====
-- The way of a request through the HTTPS server: `handle_connection` and the first part of
-- `handle_localup_request` of crates/localup-server-https/src/server.rs, after the TLS handshake.
pub mod Gateway
use localup.Base.{
  Bool, Option, none, some, if◌then◌else◌, is_empty, Bytes, codes, Result, ok, err, ◌>>=◌, ◌>>◌,
  ensure, map_err, ok_or,
}
use localup.Router.Registry.{
  RouteKey, http_host, RouteTarget, is_ip_allowed, RouteRegistry, lookup_route,
}
use localup.Proto.IpFilter.{SocketAddr}
use localup.Control.Connections.{Connections}
use localup.Servers.Requests.{
  Texts, lines, strip_prefix, Reply, no_host, not_found, denied, not_a_tunnel, not_configured,
  closed, Forward, to_tunnel, skip_line, host_value, request_path, Challenges, acme, continue,
  find_connection,
}

-- `if let (Some(manager), Some(pending)) = (localup_manager, pending_requests)`
abbrev pub both : Option Connections → Bool → Option Connections
both none has_pending = none
both (some manager) has_pending = if has_pending then some manager else none

unfoldable pub route_request :
    Texts
    → Challenges
    → Option Connections
    → Bool
    → RouteRegistry
    → SocketAddr
    → Bytes
    → Result Reply Forward
route_request t challenges manager has_pending registry peer buffer = do
  let request = lines (t.from_utf8_lossy buffer)
  host ← ok_or no_host (host_value t (skip_line request))
  continue (acme challenges host (request_path t request))
  target ← map_err (λ _. not_found) (lookup_route registry (http_host host))
  ensure (is_ip_allowed target peer) denied
  localup_id ← ok_or not_a_tunnel (strip_prefix (codes "tunnel:") target.target_addr)
  manager' ← ok_or not_configured (both manager has_pending)
  connection ← find_connection t manager' localup_id buffer
  ok (to_tunnel connection)

unfoldable pub handle_connection :
    Texts
    → Challenges
    → Option Connections
    → Bool
    → RouteRegistry
    → SocketAddr
    → Bytes
    → Result Reply Forward
handle_connection t challenges manager has_pending registry peer buffer =
    if is_empty buffer
    then err closed
    else route_request t challenges manager has_pending registry peer buffer
