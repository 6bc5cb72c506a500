-- ===== src/Control/Handler/Cleanup.antt =====
-- What a disconnect undoes: the routes, ports and tasks of a tunnel.
use localup.Base.{
  ◌≡◌, refl, ap, inl, inr, Bool, true, false, not, ◌&&◌, Option, none, some, if◌then◌else◌,
  Bool-cases, is_some, ◌==◌, nat_eq, list_eq, lookup, lookup-remove, remove_absent, Text, is_ok,
  remove-insert_absent,
}
use localup.Proto.IpFilter.{IpFilter}
use localup.Router.Wildcard.{is_wildcard_pattern}
use localup.Router.Registry.{
  RouteKey, http_host, RouteTarget, RouteRegistry, unregister, unregister_wildcard, key_eq,
}
use localup.Control.Handler.{
  Handler, host_of, check_domain, register_web, unregister_host, unregister_web,
}
use localup.Control.Handler.Claiming.{may_have, with_host, register_web-IsGuarded}

-- Nobody has the host.
abbrev pub is_vacant : RouteRegistry → Text → Bool
is_vacant r host =
    if is_wildcard_pattern host
    then not (is_some (lookup host r.wildcard_routes))
    else not (is_some (lookup (http_host host) r.routes))

nobody_lem : (held : Option RouteTarget) → not (is_some held) ≡ true → held ≡ none
nobody_lem none e = refl
nobody_lem (some t) e = cc

unregister_host-with_host :
    (r : RouteRegistry) (id host : Text) (custom : Bool) (filter : IpFilter)
    → is_vacant r host ≡ true
    → unregister_host (with_host r id host custom filter) host ≡ r
unfolding unregister_host unregister unregister_wildcard
unregister_host-with_host r id host custom filter vacant =
    elim (Bool-cases (is_wildcard_pattern host)) [
      | inl wild ↦
          let nobody : not (is_some (lookup host r.wildcard_routes)) ≡ true = rw wild at vacant in
          let gone : lookup host r.wildcard_routes ≡ none =
            nobody_lem (lookup host r.wildcard_routes) nobody in
          rw (wild, unregister_host)
            (ap (λ m. record r { wildcard_routes = m }) (remove-insert_absent host _ _ gone))
      | inr plain ↦
          let nobody : not (is_some (lookup (http_host host) r.routes)) ≡ true =
            rw plain at vacant in
          let gone : lookup (http_host host) r.routes ≡ none =
            nobody_lem (lookup (http_host host) r.routes) nobody in
          rw (plain, unregister_host)
            (ap (λ m. record r { routes = m }) (remove-insert_absent (http_host host) _ _ gone))
    ]

unregister_host-vacant :
    (r : RouteRegistry) (host : Text) → is_vacant r host ≡ true → unregister_host r host ≡ r
unfolding unregister_host unregister unregister_wildcard
unregister_host-vacant r host vacant = elim (Bool-cases (is_wildcard_pattern host)) [
  | inl wild ↦
      let nobody : not (is_some (lookup host r.wildcard_routes)) ≡ true = rw wild at vacant in
      rw (wild, unregister_host)
        (ap (λ m. record r { wildcard_routes = m })
          (remove_absent host r.wildcard_routes
            (nobody_lem (lookup host r.wildcard_routes) nobody)))
  | inr plain ↦
      let nobody : not (is_some (lookup (http_host host) r.routes)) ≡ true = rw plain at vacant in
      rw (plain, unregister_host)
        (ap (λ m. record r { routes = m })
          (remove_absent (http_host host) r.routes
            (nobody_lem (lookup (http_host host) r.routes) nobody)))
]

if_unregistered :
    (guard : Bool) (r claimed : RouteRegistry) (host : Text)
    → unregister_host claimed host ≡ r
    → unregister_host r host ≡ r
    → unregister_host (if guard then claimed else r) host ≡ r
if_unregistered true r claimed host a b = a
if_unregistered false r claimed host a b = b

host_unregistered :
    (h : Handler) (r : RouteRegistry) (sub custom : Option Text) (host : Text) (is_custom : Bool)
    → host_of h.domain sub custom ≡ some (host, is_custom)
    → unregister_web h r sub custom ≡ unregister_host r host
unfolding unregister_web
host_unregistered h r sub custom host is_custom e = rw (e, unregister_web) refl

-- The removal of the route of an HTTP or HTTPS endpoint after its registration gives the registry as it was
-- before, whether or not the registration succeeded, if nobody had the host then.
pub unregister_web-register_web :
    (h : Handler) (r : RouteRegistry) (id : Text) (sub custom : Option Text) (filter : IpFilter)
    (host : Text) (is_custom : Bool)
    → host_of h.domain sub custom ≡ some (host, is_custom)
    → is_vacant r host ≡ true
    → unregister_web h (register_web h r id sub custom filter).0 sub custom ≡ r
unregister_web-register_web h r id sub custom filter host is_custom e vacant =
    let guard = is_ok (check_domain h.db is_custom host) && may_have r id host in
    let claimed = with_host r id host is_custom filter in
    let outcome : (register_web h r id sub custom filter).0 ≡ (if guard then claimed else r) =
      rw e at (register_web-IsGuarded h r id sub custom filter).0 in
    rw (outcome, host_unregistered h (if guard then claimed else r) sub custom host is_custom e)
      (if_unregistered guard r claimed host
        (unregister_host-with_host r id host is_custom filter vacant)
        (unregister_host-vacant r host vacant))

-- The routes after the removal of a host's route: that host has none, whichever tunnel had it, and nothing
-- else is changed.
abbrev pub IsWithout : RouteRegistry → Text → RouteRegistry → Type 0
IsWithout r host after =
    if is_wildcard_pattern host
    then ((after.routes ≡ r.routes)
        × ((p : Text)
            → lookup p after.wildcard_routes
              ≡ (if host == p then none else lookup p r.wildcard_routes)))
    else ((after.wildcard_routes ≡ r.wildcard_routes)
        × ((k : RouteKey)
            → lookup k after.routes ≡ (if http_host host == k then none else lookup k r.routes)))

-- The removal of the route of an HTTP or HTTPS endpoint removes the route of exactly that host, whichever
-- tunnel the route leads to: it is not compared with the tunnel that disconnects.
pub unregister_web-IsWithout :
    (h : Handler) (r : RouteRegistry) (sub custom : Option Text) (host : Text) (is_custom : Bool)
    → host_of h.domain sub custom ≡ some (host, is_custom)
    → IsWithout r host (unregister_web h r sub custom)
unfolding unregister_host unregister unregister_wildcard
unregister_web-IsWithout h r sub custom host is_custom e =
    let unregistered = host_unregistered h r sub custom host is_custom e in
    elim (Bool-cases (is_wildcard_pattern host)) [
      | inl wild ↦
          rw (unregistered, wild, unregister_host)
            (refl, λ p. lookup-remove host p r.wildcard_routes)
      | inr plain ↦
          rw (unregistered, plain, unregister_host)
            (refl, λ k. lookup-remove (http_host host) k r.routes)
    ]
