-- ===== src/Control/Handler/Ownership.antt =====
-- A registration and the routes of other tunnels.
use localup.Base.{
  ℕ, ◌≡◌, refl, inl, inr, Bool, true, false, Option, none, some, Bool-cases, Option-cases, Eq, ◌==◌,
  ==_iff, nat_eq, list_eq, Map, lookup, remove, lookup-remove, Text, codes, Result, ok, err,
  Result-cases,
}
use localup.Proto.IpFilter.{IpFilter}
use localup.Router.Wildcard.{is_wildcard_pattern, parse}
use localup.Router.Registry.{
  http_host, RouteTarget, RouteRegistry, unregister, unregister_wildcard, key_eq,
}
use localup.ExitNode.Ports.{AllocateError, PortAllocator}
use localup.Control.Endpoints.{Protocol, tcp, tls, http, https}
use localup.Control.Handler.Freeing.{free_host_lem, free_wildcard_lem}
use localup.Control.Handler.Growth.{
  Extends, register-Extends, register_wildcard-Extends, register_patterns-Extends,
}
use localup.Control.Handler.{
  Handler, Shared, RegisterError, Outcome, host_of, check_domain, route_target, free_wildcard,
  free_host, register_wildcard_host, register_host, conflict_of, metadata_of, register_checked,
  register_web, register_patterns, with_registry, spawned, register_tcp, register_route,
}

-- The entries of a map that belong to other tunnels than `id` are in the second map as well.
abbrev pub KeepsEntries :
    {K : Type 0} ⦃e : Eq K⦄ → Text → Map K RouteTarget → Map K RouteTarget → Type 0
KeepsEntries {K} id m n =
    (k : K) (t : RouteTarget)
    → lookup k m ≡ some t
    → (t.localup_id == id) ≡ false
    → lookup k n ≡ some t

pub record Keeps (id : Text) (r s : RouteRegistry) : Type 0 where
  pub routes_kept : KeepsEntries id r.routes s.routes
  pub wildcards_kept : KeepsEntries id r.wildcard_routes s.wildcard_routes

module _ {K : Type 0} ⦃e : Eq K⦄ (id : Text) where
  remove-KeepsEntries :
      (k : K) (v : RouteTarget) (m : Map K RouteTarget)
      → lookup k m ≡ some v
      → (v.localup_id == id) ≡ true
      → KeepsEntries id m (remove k m)
  remove-KeepsEntries k v m held own j t found other = elim (Bool-cases (k == j)) [
    | inl hit ↦ let same : k ≡ j = (==_iff k j).0 hit in absurd (clash (rw same found))
    | inr miss ↦ rw (lookup-remove k j m, miss) found
  ]
    where
      clash : lookup k m ≡ some t → ⊥
      clash x = cc

pub Keeps-all : (id : Text) (r : RouteRegistry) → Keeps id r r
Keeps-all id r = record { routes_kept = λ k t f o. f; wildcards_kept = λ k t f o. f }

pub Keeps-trans : (id : Text) (r s t : RouteRegistry) → Keeps id r s → Keeps id s t → Keeps id r t
Keeps-trans id r s t a b = record {
  routes_kept = λ k u f o. b.routes_kept k u (a.routes_kept k u f o) o;
  wildcards_kept = λ k u f o. b.wildcards_kept k u (a.wildcards_kept k u f o) o;
}

Keeps-extended : (id : Text) (r s : RouteRegistry) → Extends r s → Keeps id r s
Keeps-extended id r s x = record {
  routes_kept = λ k t f o. x.routes_grow k t f;
  wildcards_kept = λ k t f o. x.wildcards_grow k t f;
}

free_host-Keeps :
    (r freed : RouteRegistry) (id host : Text) (conflict : RegisterError)
    → free_host r id host conflict ≡ ok freed
    → Keeps id r freed
unfolding unregister
free_host-Keeps r freed id host conflict h = elim (free_host_lem r freed id host conflict h) [
  | inl (same, fresh) ↦ rw same (Keeps-all id r)
  | inr (same, t, held, own) ↦ rw same (record {
    routes_kept = remove-KeepsEntries id (http_host host) t r.routes held own;
    wildcards_kept = λ k t f o. f;
  })
]

free_wildcard-Keeps :
    (r freed : RouteRegistry) (id host : Text)
    → free_wildcard r id host ≡ ok freed
    → Keeps id r freed
unfolding unregister_wildcard
free_wildcard-Keeps r freed id host h = elim (free_wildcard_lem r freed id host h) [
  | inl (same, fresh) ↦ rw same (Keeps-all id r)
  | inr (same, t, held, own) ↦ rw same (record {
    routes_kept = λ k t f o. f;
    wildcards_kept = remove-KeepsEntries id host t r.wildcard_routes held own;
  })
]

register_host-Keeps :
    (r : RouteRegistry) (id host : Text) (conflict : RegisterError) (metadata : Text)
    (filter : IpFilter)
    → Keeps id r (register_host r id host conflict metadata filter).0
unfolding register_host
register_host-Keeps r id host conflict metadata filter =
    elim (Result-cases (free_host r id host conflict)) [
      | inl (freed, e) ↦
          rw (e, register_host)
            (Keeps-trans id r freed _ (free_host-Keeps r freed id host conflict e) (
              Keeps-extended id freed _
                (register-Extends freed (http_host host) (route_target id metadata filter))))
      | inr (failure, e) ↦ rw (e, register_host) (Keeps-all id r)
    ]

register_wildcard_host-Keeps :
    (r : RouteRegistry) (id host : Text) (filter : IpFilter)
    → Keeps id r (register_wildcard_host r id host filter).0
unfolding register_wildcard_host
register_wildcard_host-Keeps r id host filter = elim (Result-cases (parse host)) [
  | inr (failure, bad) ↦ rw (bad, register_wildcard_host) (Keeps-all id r)
  | inl (w, good) ↦ elim (Result-cases (free_wildcard r id host)) [
    | inl (freed, e) ↦
        rw (good, register_wildcard_host)
          (rw e (
            Keeps-trans id r freed _ (free_wildcard-Keeps r freed id host e) (
              Keeps-extended id freed _ (
                register_wildcard-Extends freed host
                  (route_target id (codes "wildcard-domain") filter)))))
    | inr (failure, e) ↦ rw (good, register_wildcard_host) (rw e (Keeps-all id r))
  ]
]

register_web-Keeps :
    (h : Handler) (r : RouteRegistry) (id : Text) (sub custom : Option Text) (filter : IpFilter)
    → Keeps id r (register_web h r id sub custom filter).0
unfolding register_web register_checked
register_web-Keeps h r id sub custom filter = elim (Option-cases (host_of h.domain sub custom)) [
  | inl e ↦ rw (e, register_web) (Keeps-all id r)
  | inr ((host, is_custom), e) ↦ elim (Result-cases (check_domain h.db is_custom host)) [
    | inr (failure, f) ↦ rw (e, register_web) (rw f (Keeps-all id r))
    | inl (done, f) ↦ rw (e, register_web) (rw f (checked host is_custom))
  ]
]
  where
    checked :
        (host : Text) (is_custom : Bool)
        → Keeps id r (register_checked r id sub host is_custom filter).0
    checked host is_custom = elim (Bool-cases (is_wildcard_pattern host)) [
      | inl w ↦ rw (w, register_checked) (register_wildcard_host-Keeps r id host filter)
      | inr w ↦
          rw (w, register_checked)
            (register_host-Keeps r id host (conflict_of is_custom sub host) (metadata_of is_custom)
              filter)
    ]

abbrev with_registry_lem : (s : Shared) (o : Outcome) → (with_registry s o).0.route_registry ≡ o.0
with_registry_lem s (r, ok done) = refl
with_registry_lem s (r, err e) = refl

spawned_lem :
    (h : Handler) (s : Shared) (id : Text) (found : PortAllocator × Result AllocateError ℕ)
    → (spawned h s id found).0.route_registry ≡ s.route_registry
spawned_lem h s id (a, ok port) = refl
spawned_lem h s id (a, err e) = refl

module _ (is_port_available : ℕ → ℕ → Bool) (hash : Text → ℕ) where
  register_tcp_lem :
      (h : Handler) (s : Shared) (id : Text) (port : ℕ) (a : Option PortAllocator)
      → (register_tcp is_port_available hash h s id port a).0.route_registry ≡ s.route_registry
  unfolding register_tcp
  register_tcp_lem h s id port none = refl
  register_tcp_lem h s id port (some a) = spawned_lem h s id _

  -- A registration never removes or changes a route of another tunnel, whatever the protocol asks for and
  -- whether it succeeds or fails: an exact route or wildcard route whose target belongs to another tunnel
  -- has the same target afterwards.
  pub register_route-Keeps :
      (h : Handler) (s : Shared) (id : Text) (protocol : Protocol) (filter : IpFilter)
      → Keeps id s.route_registry
          (register_route is_port_available hash h s id protocol filter).0.route_registry
  unfolding register_route
  register_route-Keeps h s id (http sub custom) filter =
      rw (with_registry_lem s (register_web h s.route_registry id sub custom filter))
        (register_web-Keeps h s.route_registry id sub custom filter)
  register_route-Keeps h s id (https sub custom) filter =
      rw (with_registry_lem s (register_web h s.route_registry id sub custom filter))
        (register_web-Keeps h s.route_registry id sub custom filter)
  register_route-Keeps h s id (tcp port) filter =
      rw (register_tcp_lem h s id port s.port_allocator) (Keeps-all id s.route_registry)
  register_route-Keeps h s id (tls port patterns) filter =
      rw (with_registry_lem s (register_patterns s.route_registry id patterns filter)) (
        Keeps-extended id s.route_registry _
          (register_patterns-Extends s.route_registry id patterns filter))
