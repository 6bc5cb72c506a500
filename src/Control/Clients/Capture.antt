-- ===== src/Control/Clients/Capture.antt =====
-- A client that asks for the subdomain `*`.
use localup.Base.{
  ℕ, ◌≡◌, refl, ap, ◌∙◌, inl, inr, Bool, true, Option, none, some, [], ◌∷◌, nat_eq, list_eq, lookup,
  Text, codes, Result, ok, err, Result-cases, unwrap_or,
}
use localup.Proto.IpFilter.{IpFilter, from_allowlist}
use localup.Router.Wildcard.{WildcardPattern, parse, matches}
use localup.Router.Registry.{http_host, lookup_route, key_eq}
use localup.Control.Endpoints.{
  http, Endpoint, DomainProvider, Ports, allows_manual, host_name, https_url, build_endpoints,
  build_endpoint, web_endpoint, actual_subdomain,
}
use localup.Control.Admission.{JwtClaims, validate_auth_token}
use localup.Control.Handler.{
  Handler, Shared, Outcome, route_target, register_web, register_route, with_registry,
}
use localup.Control.Handler.Capture.{all_subdomains, star_subdomain-captures}
use localup.Control.Clients.{
  Connect, Relay, Environment, filter_of, register_endpoints, admit, connect,
}
use localup.Control.Clients.Routes.{connected_lem}

-- The endpoint of the subdomain `*`
abbrev star_endpoint : Ports → Text → Endpoint
star_endpoint ports domain = record {
  protocol = http (some (codes "*")) none;
  public_url = https_url (host_name (codes "*") domain) (unwrap_or 443 ports.https_port);
  port = some (unwrap_or 443 ports.https_port);
}

build_endpoints_star :
    {S : Type 0} (provider : Option (DomainProvider S)) (ports : Ports) (domain id : Text)
    (hash : ℕ) (s : S)
    → allows_manual provider ≡ true
    → build_endpoints provider ports domain id hash s (http (some (codes "*")) none ∷ [])
      ≡ (star_endpoint ports domain ∷ [], s)
unfolding build_endpoints build_endpoint web_endpoint actual_subdomain
build_endpoints_star provider ports domain id hash s manual = rw manual refl

with_registry_registry : (s : Shared) (o : Outcome) → (with_registry s o).0.route_registry ≡ o.0
with_registry_registry s (r, ok done) = refl
with_registry_registry s (r, err e) = refl

register_endpoints_star :
    (is_port_available : ℕ → ℕ → Bool) (hash : Text → ℕ) (h : Handler) (s : Shared) (id : Text)
    (filter : IpFilter) (ports : Ports)
    → (register_endpoints is_port_available hash h s id filter
        (star_endpoint ports h.domain ∷ [])).0.route_registry
      ≡ (register_web h s.route_registry id (some (codes "*")) none filter).0
unfolding register_endpoints register_route
register_endpoints_star o hash h s id filter ports =
    let outcome = register_web h s.route_registry id (some (codes "*")) none filter in
    elim (Result-cases (with_registry s outcome).1) [
      | inl (port, good) ↦ rw (good, register_endpoints) (with_registry_registry s outcome)
      | inr (e, failed) ↦ rw (failed, register_endpoints) (with_registry_registry s outcome)
    ]

-- A client whose authentication succeeds, and that asks for an HTTP tunnel with the subdomain `*`, is given the
-- wildcard route of the relay's whole domain, without a check of custom domains, if there is no domain
-- provider or it allows manual subdomains, the pattern of that wildcard is valid, and the wildcard is free:
-- every host that the pattern matches, and that has no route of its own, then leads to this client's tunnel.
pub connect-captures :
    {S : Type 0} (env : Environment S) (h : Handler) (provider : Option (DomainProvider S))
    (validator : Option (Text → Result Text JwtClaims)) (ports : Ports) (r : Relay S)
    (request : Connect) (user_id host : Text) (w : WildcardPattern)
    → validate_auth_token env.sha256 env.now validator h.db request.auth_token ≡ ok user_id
    → request.protocols ≡ http (some (codes "*")) none ∷ []
    → allows_manual provider ≡ true
    → parse (all_subdomains h.domain) ≡ ok w
    → lookup (all_subdomains h.domain) r.shared.route_registry.wildcard_routes ≡ none
    → matches w host ≡ true
    → lookup (http_host host) r.shared.route_registry.routes ≡ none
    → lookup_route
        (connect env h provider validator ports r request).0.shared.route_registry
        (http_host host)
      ≡ ok (
          route_target request.localup_id
            (codes "wildcard-domain")
            (filter_of (from_allowlist env.from_str request.ip_allowlist)))
unfolding connect admit
connect-captures {S} env h provider validator ports r request user_id host w valid asked manual good
      vacant matching unrouted =
    let id = request.localup_id in
    let filter = filter_of (from_allowlist env.from_str request.ip_allowlist) in
    let built =
      ap (build_endpoints provider ports h.domain id env.subdomain_hash r.provider_state) asked
      ∙ build_endpoints_star provider ports h.domain id env.subdomain_hash r.provider_state
          manual in
    rw (valid, connect)
      (rw (connected_lem env r request _ _) (
        rw built (
          rw (register_endpoints_star env.is_port_available env.hash h r.shared id filter ports) (
            star_subdomain-captures h r.shared.route_registry id host filter w good vacant matching
              unrouted))))
