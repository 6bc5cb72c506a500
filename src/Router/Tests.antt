-- ===== src/Router/Tests.antt =====
-- The router on small registries.
mod Hosts
use localup.Base.{
  ◌≡◌, refl, ap, ◌↔◌, ◌⊎◌, true, false, not, ◌&&◌, none, some, List, [], ◌∷◌, if◌then◌else◌, lookup,
  contains_key, codes, starts_with, ends_with, contains_text, contains_byte, split_parts, ok, is_ok,
}
use localup.Proto.IpFilter.{IpFilter}
use localup.Router.Wildcard.{WildcardPattern, star_dot, parse, matches, extract_parent_wildcard}
use localup.Router.Wildcard.Matching.{
  IsSubdomain, matches_iff, IsParent, extract_parent_wildcard_iff,
}
use localup.Router.Wildcard.Format.{IsBase, parse_iff, matches_iff_parent}
use localup.Router.Registry.{
  RouteKey, http_host, tls_sni, tcp_port, key_eq, RouteTarget, RouteRegistry, new, exists, register,
  unregister, lookup_wildcard, lookup_route, exists_with_wildcard,
}
use localup.Router.Registry.Wildcards.{
  IsMatch, lookup_wildcard_iff, matches_unique, FallsBack, lookup_route_iff,
}
use localup.Router.Registry.Operations.{
  Inv, Call, registers, registers_wildcard, unregisters, run, run-new-Inv, lookup-register,
  unregister-register,
}
use localup.Router.Registry.Existence.{is_ok-lookup_route}

abbrev open_filter : IpFilter
open_filter = record { allowlist = []; networks = [] }

abbrev target : RouteTarget
target = record {
  localup_id = codes "abc";
  target_addr = codes "localhost:3000";
  metadata = none;
  ip_filter = open_filter;
}

abbrev wildcard_target : RouteTarget
wildcard_target = record {
  localup_id = codes "def";
  target_addr = codes "localhost:4000";
  metadata = none;
  ip_filter = open_filter;
}

abbrev star_pattern : WildcardPattern
star_pattern = record { pattern = codes "*.example.com"; base_domain = codes "example.com" }

-- An exact route and a wildcard route.
abbrev sample : RouteRegistry
sample = record {
  routes = (http_host (codes "api.example.com"), target) ∷ [];
  wildcard_routes = (codes "*.example.com", wildcard_target) ∷ [];
}

star-accepted : parse (codes "*.example.com") ≡ ok star_pattern
unfolding parse contains_text starts_with ends_with contains_byte split_parts
star-accepted = refl

star-matches : matches star_pattern (codes "www.example.com") ≡ true
unfolding matches starts_with ends_with contains_byte
star-matches = refl

sample-Inv : Inv sample
unfolding lookup
sample-Inv = record {
  routes_distinct = (refl, tt);
  wildcards_distinct = (refl, tt);
  accepted = (ap is_ok star-accepted, tt);
}

sample-fresh : exists sample (http_host (codes "new.example.com")) ≡ false
unfolding exists contains_key lookup
sample-fresh = refl

lookup_route_iff_example :
    (lookup_route sample (http_host (codes "api.example.com")) ≡ ok target) ↔ (
      (lookup (http_host (codes "api.example.com")) sample.routes ≡ some target)
      ⊎ ((lookup (http_host (codes "api.example.com")) sample.routes ≡ none)
          × FallsBack sample (http_host (codes "api.example.com")) target))
lookup_route_iff_example = lookup_route_iff sample (http_host (codes "api.example.com")) target

abbrev some_calls : List Call
some_calls =
    registers (http_host (codes "api.example.com")) target
    ∷ registers_wildcard (codes "*.example.com") wildcard_target
    ∷ unregisters (http_host (codes "api.example.com"))
    ∷ []

-- A host that starts with a dot: the test for a route accepts it, the lookup does not find it.
is_ok-lookup_route_example : is_ok (lookup_route sample (http_host (codes ".example.com"))) ≡ (
    if contains_key (http_host (codes ".example.com")) sample.routes
    then true
    else exists_with_wildcard sample (http_host (codes ".example.com")) && not true)
unfolding starts_with
is_ok-lookup_route_example = is_ok-lookup_route sample (http_host (codes ".example.com")) sample-Inv
