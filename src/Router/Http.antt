-- ===== src/Router/Http.antt =====
-- Routing by host header: crates/localup-router/src/http.rs.
pub mod Hosts
use localup.Base.{
  ℕ, ◌+◌, Bool, ◌&&◌, none, some, List, [], ◌∷◌, map, leb, if◌then◌else◌, ◌==◌, nat_eq, list_eq,
  Text, codes, split_parts, Result, ok, err, map_err,
}
use localup.Proto.IpFilter.{IpFilter}
use localup.Proto.IpFilter
use localup.Router.Wildcard.{WildcardError, parse}
use localup.Router.Registry.{
  key_eq, RouteKey, http_host, RouteTarget, RouteError, RouteRegistry, exists, exists_with_wildcard,
  wildcard_exists,
}
use localup.Router.Registry

pub data HttpRouterError : Type 0 where
  route_error : RouteError → HttpRouterError
  invalid_host : Text → HttpRouterError
  host_header_not_found : HttpRouterError
  invalid_wildcard_pattern : WildcardError → HttpRouterError

pub record HttpRoute : Type 0 where
  pub host : Text
  pub localup_id : Text
  pub target_addr : Text
  pub ip_filter : IpFilter

-- The router holds a registry; its calls return the registry after them.
unfoldable pub register_route :
    RouteRegistry → HttpRoute → RouteRegistry × Result HttpRouterError (Unit {0})
register_route r route =
    let target : RouteTarget = record {
      localup_id = route.localup_id;
      target_addr = route.target_addr;
      metadata = none;
      ip_filter = route.ip_filter;
    } in
    let (r', result) = Registry.register r (http_host route.host) target in
    (r', map_err route_error result)

unfoldable pub register_wildcard_route :
    RouteRegistry → Text → Text → Text → RouteRegistry × Result HttpRouterError (Unit {0})
register_wildcard_route r pattern localup_id target_addr = elim (parse pattern) [
  | err e ↦ (r, err (invalid_wildcard_pattern e))
  | ok _ ↦
      let target : RouteTarget = record {
        localup_id = localup_id;
        target_addr = target_addr;
        metadata = some (codes "wildcard");
        ip_filter = IpFilter.new;
      } in
      let (r', result) = Registry.register_wildcard r pattern target in
      (r', map_err route_error result)
]

-- `host.split(':').next()`
unfoldable pub normalize_host : Text → Text
normalize_host host = (split_parts b':' host).0

unfoldable pub lookup_host : RouteRegistry → Text → Result HttpRouterError RouteTarget
lookup_host r host = map_err route_error (Registry.lookup_route r (http_host (normalize_host host)))

abbrev dropped {ℓ κ} : {E : Type ℓ} {A : Type κ} → Result E A → Result E (Unit {0})
dropped (ok a) = ok tt
dropped (err e) = err e

unfoldable pub unregister : RouteRegistry → Text → RouteRegistry × Result HttpRouterError (Unit {0})
unregister r host =
    let (r', result) = Registry.unregister r (http_host (normalize_host host)) in
    (r', map_err route_error (dropped result))

unfoldable pub unregister_wildcard :
    RouteRegistry → Text → RouteRegistry × Result HttpRouterError (Unit {0})
unregister_wildcard r pattern =
    let (r', result) = Registry.unregister_wildcard r pattern in
    (r', map_err route_error (dropped result))

unfoldable pub has_route : RouteRegistry → Text → Bool
has_route r host = exists r (http_host (normalize_host host))

unfoldable pub has_route_with_wildcard : RouteRegistry → Text → Bool
has_route_with_wildcard r host = exists_with_wildcard r (http_host (normalize_host host))

unfoldable pub has_wildcard_route : RouteRegistry → Text → Bool
has_wildcard_route r pattern = wildcard_exists r pattern

-- u8::to_ascii_lowercase
unfoldable pub ascii_lower : ℕ → ℕ
ascii_lower c = if leb b'A' c && leb c b'Z' then c + 32 else c

unfoldable pub eq_ignore_ascii_case : Text → Text → Bool
unfolding ascii_lower
eq_ignore_ascii_case a b = map ascii_lower a == map ascii_lower b

unfoldable pub extract_host : List (Text × Text) → Result HttpRouterError Text
extract_host [] = err host_header_not_found
extract_host ((name, value) ∷ headers) =
    if eq_ignore_ascii_case name (codes "host") then ok value else extract_host headers
