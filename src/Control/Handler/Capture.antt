-- ===== src/Control/Handler/Capture.antt =====
-- The subdomain `*`.
use localup.Base.{
  ◌≡◌, refl, inr, true, none, some, ◌∷◌, nat_eq, list_eq, lookup, lookup-insert_self, Text, codes,
  starts_with, ok,
}
use localup.Proto.IpFilter.{IpFilter}
use localup.Router.Wildcard.{WildcardPattern, is_wildcard_pattern, parse, matches}
use localup.Router.Registry.{http_host, RouteRegistry, lookup_route, key_eq}
use localup.Router.Registry.Wildcards.{lookup_route_iff}
use localup.Control.Endpoints.{host_name}
use localup.Control.Handler.{
  Handler, route_target, host_of, check_domain, register_checked, register_web,
}
use localup.Control.Handler.Vacancy.{with_wildcard, register_wildcard_host-available}

-- The pattern of every subdomain of the domain.
abbrev pub all_subdomains : Text → Text
all_subdomains domain = b'*' ∷ b'.' ∷ domain

star_registered :
    (h : Handler) (r : RouteRegistry) (id : Text) (filter : IpFilter) (w : WildcardPattern)
    → parse (all_subdomains h.domain) ≡ ok w
    → lookup (all_subdomains h.domain) r.wildcard_routes ≡ none
    → register_web h r id (some (codes "*")) none filter ≡ (
      with_wildcard r (all_subdomains h.domain) (route_target id (codes "wildcard-domain") filter),
      ok tt,
    )
unfolding register_web host_of host_name check_domain register_checked is_wildcard_pattern
    starts_with
star_registered h r id filter w good vacant =
    rw (register_wildcard_host-available r id (all_subdomains h.domain) w filter good)
      (rw vacant refl)

-- An endpoint with the subdomain `*` registers the wildcard of the relay's domain.
pub star_subdomain-captures :
    (h : Handler) (r : RouteRegistry) (id host : Text) (filter : IpFilter) (w : WildcardPattern)
    → parse (all_subdomains h.domain) ≡ ok w
    → lookup (all_subdomains h.domain) r.wildcard_routes ≡ none
    → matches w host ≡ true
    → lookup (http_host host) r.routes ≡ none
    → lookup_route (register_web h r id (some (codes "*")) none filter).0 (http_host host)
      ≡ ok (route_target id (codes "wildcard-domain") filter)
star_subdomain-captures h r id host filter w good vacant matching unrouted =
    let pattern = all_subdomains h.domain in
    let target = route_target id (codes "wildcard-domain") filter in
    rw (star_registered h r id filter w good vacant) (
      (lookup_route_iff (with_wildcard r pattern target) (http_host host) target).1 (
        inr (
          unrouted,
          (
            host,
            pattern,
            refl,
            (w, good, matching, lookup-insert_self pattern target r.wildcard_routes),
          ),
        )))
