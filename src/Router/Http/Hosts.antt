-- ===== src/Router/Http/Hosts.antt =====
-- Hosts with and without a port, and the host header.
use localup.Base.{
  ◌≡◌, refl, sym, ap, ◌∙◌, ◌≢◌, ◌↔◌, inl, inr, Bool, true, false, none, List, [], ◌∷◌, ◌++◌, arith,
  if◌then◌else◌, Bool-cases, All, ◌==◌, ==_false, nat_eq, list_eq, Text, codes, contains_byte,
  split_parts, Result, ok, err, map_err,
}
use localup.Router.Registry.{key_eq, http_host, RouteTarget, RouteRegistry, lookup_route, exists}
use localup.Router.Registry.Operations.{lookup-register}
use localup.Router.Http.{
  HttpRoute, HttpRouterError, route_error, register_route, normalize_host, lookup_host, unregister,
  has_route, extract_host, eq_ignore_ascii_case, host_header_not_found,
}

split-port :
    (s rest : Text) → contains_byte b':' s ≡ false → (split_parts b':' (s ++ b':' ∷ rest)).0 ≡ s
unfolding split_parts contains_byte
split-port [] rest h = refl
split-port (c ∷ s) rest h = ground (arith, split-port s rest)

split_plain : (s : Text) → contains_byte b':' s ≡ false → (split_parts b':' s).0 ≡ s
unfolding split_parts contains_byte
split_plain [] h = refl
split_plain (c ∷ s) h = ground (arith, split_plain s)

split-no_colon : (s : Text) → contains_byte b':' (split_parts b':' s).0 ≡ false
unfolding split_parts contains_byte
split-no_colon [] = refl
split-no_colon (c ∷ s) = ground (arith, split-no_colon s)

-- A port behind a host without a colon changes neither what the host leads to, nor whether it has a
-- route, nor what unregistering it does.
pub host_port :
    (r : RouteRegistry) (host port : Text)
    → contains_byte b':' host ≡ false
    → (lookup_host r (host ++ b':' ∷ port) ≡ lookup_host r host)
      × (has_route r (host ++ b':' ∷ port) ≡ has_route r host)
      × (unregister r (host ++ b':' ∷ port) ≡ unregister r host)
unfolding lookup_host has_route unregister normalize_host
host_port r host port h =
    let e : (split_parts b':' (host ++ b':' ∷ port)).0 ≡ (split_parts b':' host).0 =
      split-port host port h ∙ sym (split_plain host h) in
    (rw e, rw e, rw e)

abbrev pub target_of : HttpRoute → RouteTarget
target_of route = record {
  localup_id = route.localup_id;
  target_addr = route.target_addr;
  metadata = none;
  ip_filter = route.ip_filter;
}

map_err-if {ℓ κ μ} :
    {E : Type ℓ} {F : Type κ} {A : Type μ} (f : E → F) (b : Bool) (a : A) (m : Result E A)
    → map_err f (if b then ok a else m) ≡ (if b then ok a else map_err f m)
map_err-if f true a m = refl
map_err-if f false a m = refl

-- A route for a host without a route is registered, and afterwards a host leads to it exactly if it is
-- the route's host once its port is cut off; every other host leads to what it led to before.
pub lookup_host-register :
    (r : RouteRegistry) (route : HttpRoute) (host : Text)
    → exists r (http_host route.host) ≡ false
    → ((register_route r route).1 ≡ ok tt)
      × (lookup_host (register_route r route).0 host ≡ (
          if route.host == normalize_host host then ok (target_of route) else lookup_host r host))
unfolding register_route lookup_host
lookup_host-register r route host fresh =
    let (done, found) =
      lookup-register r (http_host route.host) (http_host (normalize_host host)) (target_of route)
        fresh in
    (
      rw done,
      rw found (
          map_err-if route_error (route.host == normalize_host host) (target_of route)
            (lookup_route r (http_host (normalize_host host)))),
    )

-- A route registered for a host with a colon changes no lookup: no host leads to it, since the port is
-- cut off from the host that is looked up but not from the one that is registered.
pub register-colon :
    (r : RouteRegistry) (route : HttpRoute) (host : Text)
    → exists r (http_host route.host) ≡ false
    → contains_byte b':' route.host ≡ true
    → ((register_route r route).1 ≡ ok tt)
      × (lookup_host (register_route r route).0 host ≡ lookup_host r host)
unfolding normalize_host
register-colon r route host fresh colon =
    let (done, found) = lookup_host-register r route host fresh in
    (done, found ∙ rw (==_false route.host (normalize_host host) differ))
  where
    clash : {b : Bool} → b ≡ true → b ≡ false → ⊥
    clash e e' = cc

    differ : route.host ≢ (split_parts b':' host).0
    differ e = clash (rw e at colon) (split-no_colon host)

-- No header before is the host header.
abbrev pub NoHost : List (Text × Text) → Type 0
NoHost = All (λ (h : Text × Text). eq_ignore_ascii_case h.0 (codes "host") ≡ false)

abbrev pub FirstHost : List (Text × Text) → Text → Type 0
FirstHost headers value =
    (before : List (Text × Text)) × (name : Text) × (after : List (Text × Text)) × (headers
      ≡ before ++ (name, value) ∷ after)
    × (eq_ignore_ascii_case name (codes "host") ≡ true)
    × NoHost before

extract_host-found :
    (before after : List (Text × Text)) (name value : Text)
    → NoHost before
    → eq_ignore_ascii_case name (codes "host") ≡ true
    → extract_host (before ++ (name, value) ∷ after) ≡ ok value
unfolding extract_host
extract_host-found [] after name value others h = rw h
extract_host-found ((n, v) ∷ before) after name value others h =
    rw others.0 (extract_host-found before after name value others.1 h)

extract_host-FirstHost :
    (headers : List (Text × Text)) (value : Text)
    → extract_host headers ≡ ok value
    → FirstHost headers value
unfolding extract_host
extract_host-FirstHost [] value h = absurd (bad h)
  where
    bad : ◌≡◌ {A = Result HttpRouterError Text} (err host_header_not_found) (ok value) → ⊥
    bad e = cc
extract_host-FirstHost ((n, v) ∷ headers) value h =
    elim (Bool-cases (eq_ignore_ascii_case n (codes "host"))) [
      | inl hit ↦
          let same : v ≡ value = ground (arith, hit) in
          ([], n, headers, ap (λ x. (n, x) ∷ headers) same, hit, tt)
      | inr miss ↦
          let (before, name, after, e, found, others) =
            extract_host-FirstHost headers value (rw miss at h) in
          ((n, v) ∷ before, name, after, ap (◌∷◌ (n, v)) e, found, (miss, others))
    ]

-- The extracted host is the value of the first header whose name is `host` in any case.
pub extract_host_iff :
    (headers : List (Text × Text)) (value : Text)
    → (extract_host headers ≡ ok value) ↔ FirstHost headers value
extract_host_iff headers value = (
  extract_host-FirstHost headers value,
  λ (before, name, after, e, found, others).
      rw e (extract_host-found before after name value others found),
)
