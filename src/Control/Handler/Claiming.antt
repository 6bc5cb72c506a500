-- ===== src/Control/Handler/Claiming.antt =====
-- What a registration of a host does, as an assignment under a guard.
use localup.Base.{
  ◌≡◌, refl, inl, inr, Bool, true, false, ◌&&◌, Option, none, some, if◌then◌else◌, Bool-cases,
  Option-cases, nat_eq, list_eq, lookup, Text, codes, ok, err, is_ok, Result-cases,
}
use localup.Proto.IpFilter.{IpFilter}
use localup.Router.Wildcard.{is_wildcard_pattern, parse}
use localup.Router.Registry.{http_host, RouteRegistry, key_eq}
use localup.Control.Handler.Vacancy.{
  is_available, with_route, with_wildcard, register_host-available,
  register_wildcard_host-available,
}
use localup.Control.Handler.{
  Handler, RegisterError, Outcome, host_of, check_domain, route_target, register_wildcard_host,
  conflict_of, metadata_of, register_checked, register_web,
}

-- The tunnel may have this host.
abbrev pub may_have : RouteRegistry → Text → Text → Bool
may_have r id host =
    if is_wildcard_pattern host
    then is_ok (parse host) && is_available id (lookup host r.wildcard_routes)
    else is_available id (lookup (http_host host) r.routes)

-- The registry with the host's route led to the tunnel.
abbrev pub with_host : RouteRegistry → Text → Text → Bool → IpFilter → RouteRegistry
with_host r id host custom filter =
    if is_wildcard_pattern host
    then with_wildcard r host (route_target id (codes "wildcard-domain") filter)
    else with_route r host (route_target id (metadata_of custom) filter)

-- The outcome is what the guard says: the given registry and success, or no change and an error.
abbrev pub IsGuarded : Bool → RouteRegistry → RouteRegistry → Outcome → Type 0
IsGuarded guard claimed r outcome =
    (outcome.0 ≡ (if guard then claimed else r)) × (is_ok outcome.1 ≡ guard)

if_IsGuarded :
    (guard : Bool) (claimed r : RouteRegistry) (e : RegisterError)
    → IsGuarded guard claimed r (if guard then (claimed, ok tt) else (r, err e))
if_IsGuarded true claimed r e = (refl, refl)
if_IsGuarded false claimed r e = (refl, refl)

register_checked-IsGuarded :
    (r : RouteRegistry) (id : Text) (sub : Option Text) (host : Text) (custom : Bool)
    (filter : IpFilter)
    → IsGuarded
        (may_have r id host)
        (with_host r id host custom filter)
        r
        (register_checked r id sub host custom filter)
unfolding register_checked register_wildcard_host
register_checked-IsGuarded r id sub host custom filter =
    elim (Bool-cases (is_wildcard_pattern host)) [
      | inr plain ↦
          rw (plain, register_checked)
            (rw
              (register_host-available r id host (conflict_of custom sub host) (metadata_of custom)
                filter)
              (if_IsGuarded _ _ r _))
      | inl wild ↦ elim (Result-cases (parse host)) [
        | inl (w, good) ↦
            rw (wild, register_checked)
              (rw (good, register_wildcard_host-available r id host w filter good)
                (if_IsGuarded _ _ r _))
        | inr (e, bad) ↦ rw (wild, register_checked) (rw (bad, register_wildcard_host) (refl, refl))
      ]
    ]

-- A tunnel may have the host that it asks for: there is one, its domain is registered if it is a custom
-- domain, and it is free or the tunnel's own.
abbrev pub may_register : Handler → RouteRegistry → Text → Option (Text × Bool) → Bool
may_register h r id none = false
may_register h r id (some (host, custom)) =
    is_ok (check_domain h.db custom host) && may_have r id host

abbrev pub registered : RouteRegistry → Text → IpFilter → Option (Text × Bool) → RouteRegistry
registered r id filter none = r
registered r id filter (some (host, custom)) = with_host r id host custom filter

-- The registration of an HTTP or HTTPS endpoint succeeds exactly if the endpoint names a host, the host
-- passes the check of custom domains when it is one, and no other tunnel has the host: as a wildcard, which
-- must be a valid pattern, or else as an exact host. It then leads that host to the tunnel, whether or not
-- the tunnel had it before, and otherwise it leaves the registry as it was.
pub register_web-IsGuarded :
    (h : Handler) (r : RouteRegistry) (id : Text) (sub custom : Option Text) (filter : IpFilter)
    → IsGuarded
        (may_register h r id (host_of h.domain sub custom))
        (registered r id filter (host_of h.domain sub custom))
        r
        (register_web h r id sub custom filter)
unfolding register_web
register_web-IsGuarded h r id sub custom filter =
    elim (Option-cases (host_of h.domain sub custom)) [
      | inl e ↦ rw (e, register_web) (refl, refl)
      | inr ((host, is_custom), e) ↦ elim (Result-cases (check_domain h.db is_custom host)) [
        | inr (failure, f) ↦ rw (e, register_web) (rw f (refl, refl))
        | inl (done, f) ↦
            rw (e, register_web) (rw f (register_checked-IsGuarded r id sub host is_custom filter))
      ]
    ]
