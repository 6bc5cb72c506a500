-- ===== src/Router/Registry.antt =====
-- The route registry: crates/localup-router/src/registry.rs and the route keys of src/lib.rs there.

pub mod Wildcards
pub mod Operations
pub mod Existence
use localup.Base.{
  ℕ, ◌+◌, ◌≡◌, ◌↔◌, Bool, true, false, Option, none, some, [], arith, if◌then◌else◌, eqb_iff,
  length, Eq, ◌==◌, list_beq_iff, nat_eq, list_eq, Map, lookup, remove, insert, contains_key, Text,
  Result, ok, err,
}
use localup.Proto.IpFilter.{IpFilter, SocketAddr, is_socket_allowed}
use localup.Router.Wildcard.{
  WildcardError, WildcardPattern, parse, matches, extract_parent_wildcard,
}

pub data RouteKey : Type 0 where
  tcp_port : ℕ → RouteKey
  tls_sni http_host : Text → RouteKey

abbrev key_beq : RouteKey → RouteKey → Bool
key_beq (tcp_port a) (tcp_port b) = a == b
key_beq (tls_sni a) (tls_sni b) = a == b
key_beq (http_host a) (http_host b) = a == b
key_beq (tcp_port a) (tls_sni b) = false
key_beq (tcp_port a) (http_host b) = false
key_beq (tls_sni a) (tcp_port b) = false
key_beq (tls_sni a) (http_host b) = false
key_beq (http_host a) (tcp_port b) = false
key_beq (http_host a) (tls_sni b) = false

pub key_beq_iff : (a b : RouteKey) → (key_beq a b ≡ true) ↔ (a ≡ b)
key_beq_iff (tcp_port a) (tcp_port b) = ground (arith, eqb_iff a b)
key_beq_iff (tls_sni a) (tls_sni b) = ground (arith, list_beq_iff a b)
key_beq_iff (http_host a) (http_host b) = ground (arith, list_beq_iff a b)
key_beq_iff (tcp_port a) (tls_sni b) = ground arith
key_beq_iff (tcp_port a) (http_host b) = ground arith
key_beq_iff (tls_sni a) (tcp_port b) = ground arith
key_beq_iff (tls_sni a) (http_host b) = ground arith
key_beq_iff (http_host a) (tcp_port b) = ground arith
key_beq_iff (http_host a) (tls_sni b) = ground arith

instance abbrev pub key_eq : Eq RouteKey
key_eq = record { beq = key_beq; beq_iff = key_beq_iff }

pub record RouteTarget : Type 0 where
  pub localup_id : Text
  pub target_addr : Text
  pub metadata : Option Text
  pub ip_filter : IpFilter

unfoldable pub is_ip_allowed : RouteTarget → SocketAddr → Bool
is_ip_allowed target peer = is_socket_allowed target.ip_filter peer

-- An invalid wildcard pattern carries its error, where the source keeps that error's message.
pub data RouteError : Type 0 where
  route_not_found route_already_exists : RouteKey → RouteError
  invalid_route_key : RouteError
  invalid_wildcard_pattern : WildcardError → RouteError

pub record RouteRegistry : Type 0 where
  pub routes : Map RouteKey RouteTarget
  pub wildcard_routes : Map Text RouteTarget

unfoldable pub new : RouteRegistry
new = record { routes = []; wildcard_routes = [] }

unfoldable pub register :
    RouteRegistry → RouteKey → RouteTarget → RouteRegistry × Result RouteError (Unit {0})
register r key target =
    if contains_key key r.routes
    then (r, err (route_already_exists key))
    else (record r { routes = insert key target r.routes }, ok tt)

unfoldable pub register_wildcard :
    RouteRegistry → Text → RouteTarget → RouteRegistry × Result RouteError (Unit {0})
register_wildcard r pattern target = elim (parse pattern) [
  | err e ↦ (r, err (invalid_wildcard_pattern e))
  | ok validated ↦
      if contains_key validated.pattern r.wildcard_routes
      then (r, err (route_already_exists (http_host validated.pattern)))
      else (record r { wildcard_routes = insert validated.pattern target r.wildcard_routes }, ok tt)
]

-- `if let Ok(pattern) = WildcardPattern::parse(..) { if pattern.matches(..) }`
unfoldable pub verify :
    Result WildcardError WildcardPattern → Text → RouteTarget → Option RouteTarget
verify (err e) hostname target = none
verify (ok pattern) hostname target = if matches pattern hostname then some target else none

unfoldable pub lookup_wildcard : RouteRegistry → Text → Option RouteTarget
lookup_wildcard r hostname = elim (extract_parent_wildcard hostname) [
  | none ↦ none
  | some wildcard ↦ elim (lookup wildcard r.wildcard_routes) [
    | none ↦ none
    | some target ↦ verify (parse wildcard) hostname target
  ]
]

-- the fallback of `lookup`, for hosts and SNI names
unfoldable pub fallback : RouteRegistry → RouteKey → Option RouteTarget
fallback r (tcp_port port) = none
fallback r (tls_sni sni) = lookup_wildcard r sni
fallback r (http_host host) = lookup_wildcard r host

unfoldable pub lookup_route : RouteRegistry → RouteKey → Result RouteError RouteTarget
lookup_route r key = elim (lookup key r.routes) [
  | some target ↦ ok target
  | none ↦ elim (fallback r key) [ some target ↦ ok target | none ↦ err (route_not_found key) ]
]

unfoldable pub removed : Option RouteTarget → RouteKey → Result RouteError RouteTarget
removed none key = err (route_not_found key)
removed (some target) key = ok target

unfoldable pub unregister : RouteRegistry → RouteKey → RouteRegistry × Result RouteError RouteTarget
unregister r key = (record r { routes = remove key r.routes }, removed (lookup key r.routes) key)

unfoldable pub unregister_wildcard :
    RouteRegistry → Text → RouteRegistry × Result RouteError RouteTarget
unregister_wildcard r pattern = (
  record r { wildcard_routes = remove pattern r.wildcard_routes },
  removed (lookup pattern r.wildcard_routes) (http_host pattern),
)

unfoldable pub exists : RouteRegistry → RouteKey → Bool
exists r key = contains_key key r.routes

unfoldable pub wildcard_exists : RouteRegistry → Text → Bool
wildcard_exists r pattern = contains_key pattern r.wildcard_routes

unfoldable pub get_wildcard_target : RouteRegistry → Text → Option RouteTarget
get_wildcard_target r pattern = lookup pattern r.wildcard_routes

unfoldable pub parent_exists : RouteRegistry → Text → Bool
parent_exists r hostname = elim (extract_parent_wildcard hostname) [
  | none ↦ false
  | some wildcard ↦ contains_key wildcard r.wildcard_routes
]

-- the second and third test of `exists_with_wildcard`
unfoldable pub parent_exists_key : RouteRegistry → RouteKey → Bool
parent_exists_key r (tcp_port port) = false
parent_exists_key r (tls_sni sni) = parent_exists r sni
parent_exists_key r (http_host host) = parent_exists r host

unfoldable pub exists_with_wildcard : RouteRegistry → RouteKey → Bool
exists_with_wildcard r key = if contains_key key r.routes then true else parent_exists_key r key

unfoldable pub count : RouteRegistry → ℕ
count r = length r.routes

unfoldable pub wildcard_count : RouteRegistry → ℕ
wildcard_count r = length r.wildcard_routes

unfoldable pub total_count : RouteRegistry → ℕ
total_count r = length r.routes + length r.wildcard_routes

unfoldable pub clear : RouteRegistry → RouteRegistry
clear r = record { routes = []; wildcard_routes = [] }
