-- ===== src/Router/Tcp.antt =====
-- Routing by TCP port: crates/localup-router/src/tcp.rs.
use localup.Base.{ℕ, Bool, none, nat_eq, list_eq, Text, Result, ok, ◌>>=◌, map_err}
use localup.Proto.IpFilter.{IpFilter}
use localup.Router.Registry.{
  key_eq, RouteKey, tcp_port, RouteTarget, RouteError, RouteRegistry, exists,
}
use localup.Router.Registry

pub data TcpRouterError : Type 0 where
  route_error : RouteError → TcpRouterError
  invalid_port : ℕ → TcpRouterError

pub record TcpRoute : Type 0 where
  pub port : ℕ
  pub localup_id : Text
  pub target_addr : Text
  pub ip_filter : IpFilter

unfoldable pub register_route :
    RouteRegistry → TcpRoute → RouteRegistry × Result TcpRouterError (Unit {0})
register_route r route =
    let target : RouteTarget = record {
      localup_id = route.localup_id;
      target_addr = route.target_addr;
      metadata = none;
      ip_filter = route.ip_filter;
    } in
    let (r', result) = Registry.register r (tcp_port route.port) target in
    (r', map_err route_error result)

unfoldable pub lookup_port : RouteRegistry → ℕ → Result TcpRouterError RouteTarget
lookup_port r port = map_err route_error (Registry.lookup_route r (tcp_port port))

unfoldable pub unregister : RouteRegistry → ℕ → RouteRegistry × Result TcpRouterError (Unit {0})
unregister r port =
    let (r', result) = Registry.unregister r (tcp_port port) in
    (r', map_err route_error (result >>= λ _. ok tt))

unfoldable pub has_route : RouteRegistry → ℕ → Bool
has_route r port = exists r (tcp_port port)
