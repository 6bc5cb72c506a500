-- ===== src/Router/Tests/Hosts.antt =====
-- The HTTP and the SNI router on small inputs.
use localup.Base.{
  ◌≡◌, refl, ◌≢◌, true, false, List, [], ◌∷◌, nat_eq, list_eq, lookup, contains_key, Bytes, Text,
  codes, contains_byte, err,
}
use localup.Proto.IpFilter.{IpFilter}
use localup.Router.Registry.{http_host, key_eq, RouteRegistry, exists}
use localup.Router.Http.{HttpRoute}
use localup.Router.Sni.{
  panics, stuck, at, at_u16, slice, name_at, search_step, search_extensions, skip_to_extensions,
  extract_sni,
}
use localup.Router.Sni.Fuel.{extract_sni-returns}

abbrev open_filter : IpFilter
open_filter = record { allowlist = []; networks = [] }

abbrev empty_registry : RouteRegistry
empty_registry = record { routes = []; wildcard_routes = [] }

abbrev api_route : HttpRoute
api_route = record {
  host = codes "api.example.com";
  localup_id = codes "abc";
  target_addr = codes "localhost:3000";
  ip_filter = open_filter;
}

abbrev port_route : HttpRoute
port_route = record {
  host = codes "api.example.com:80";
  localup_id = codes "abc";
  target_addr = codes "localhost:3000";
  ip_filter = open_filter;
}

abbrev headers : List (Text × Text)
headers = (codes "Accept", codes "text/html") ∷ (codes "HOST", codes "api.example.com") ∷ []

fresh : (host : Text) → exists empty_registry (http_host host) ≡ false
unfolding exists contains_key lookup
fresh host = refl

no_colon : contains_byte b':' (codes "api.example.com") ≡ false
unfolding contains_byte
no_colon = refl

colon : contains_byte b':' (codes "api.example.com:80") ≡ true
unfolding contains_byte
colon = refl

-- A hello whose only extension is a server name that claims more bytes than there are.
abbrev short_hello : Bytes
short_hello =
    22 ∷ 3 ∷ 3 ∷ 0 ∷ 50 ∷ 1 ∷ 0 ∷ 0 ∷ 46 ∷ 3 ∷ 3 ∷ 0 ∷ 0 ∷ 0 ∷ 0 ∷ 0 ∷ 0 ∷ 0 ∷ 0 ∷ 0 ∷ 0 ∷ 0 ∷ 0 ∷ 0
    ∷ 0 ∷ 0 ∷ 0 ∷ 0 ∷ 0 ∷ 0 ∷ 0 ∷ 0 ∷ 0 ∷ 0 ∷ 0 ∷ 0 ∷ 0 ∷ 0 ∷ 0 ∷ 0 ∷ 0 ∷ 0 ∷ 0 ∷ 0 ∷ 0 ∷ 2 ∷ 0 ∷ 47
    ∷ 1 ∷ 0 ∷ 0 ∷ 4 ∷ 0 ∷ 0 ∷ 0 ∷ 9 ∷ []

-- Extracting its name panics.
short_hello_panics : extract_sni short_hello ≡ err panics
unfolding extract_sni skip_to_extensions search_extensions search_step name_at slice at at_u16
short_hello_panics = refl

extract_sni-returns_example : extract_sni short_hello ≢ err stuck
extract_sni-returns_example = extract_sni-returns short_hello
