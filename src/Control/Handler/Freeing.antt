-- ===== src/Control/Handler/Freeing.antt =====
-- Making room for a new route.
use localup.Base.{
  ◌≡◌, refl, ◌⊎◌, inl, inr, true, Option, none, some, Bool-cases, ◌==◌, nat_eq, list_eq, lookup,
  Text, ok, err, absent, present,
}
use localup.Router.Registry.{
  RouteKey, http_host, RouteTarget, RouteRegistry, unregister, unregister_wildcard, exists,
  wildcard_exists, get_wildcard_target, lookup_route, key_eq,
}
use localup.Control.Handler.{
  RegisterError, wildcard_in_use, replace_own, to_option, free_wildcard, free_host,
}

-- A successful `replace_own` gives the registry as it was, or the cleaned one when the target that was
-- looked at is the tunnel's own.
pub replace_own_lem :
    (id : Text) (conflict : RegisterError) (r cleaned freed : RouteRegistry)
    (existing : Option RouteTarget)
    → replace_own id conflict r cleaned existing ≡ ok freed
    → ((freed ≡ r) × (existing ≡ none))
      ⊎ ((freed ≡ cleaned)
          × (t : RouteTarget) × (existing ≡ some t)
          × ((t.localup_id == id) ≡ true))
replace_own_lem id conflict r cleaned freed none h = inl (cc, refl)
replace_own_lem id conflict r cleaned freed (some t) h = elim (Bool-cases (t.localup_id == id)) [
  | inl own ↦ inr (cc, t, refl, own)
  | inr other ↦ absurd (refused (rw other at h))
]
  where
    refused : err conflict ≡ ok freed → ⊥
    refused x = cc

pub lookup_route-exists :
    (r : RouteRegistry) (key : RouteKey)
    → exists r key ≡ true
    → to_option (lookup_route r key) ≡ lookup key r.routes
unfolding exists lookup_route
lookup_route-exists r key old =
    let (t, found) = present key r.routes old in rw (found, lookup_route) refl

-- Either there was no exact route, and nothing changed, or it was the tunnel's own, and it is gone.
pub free_host_lem :
    (r freed : RouteRegistry) (id host : Text) (conflict : RegisterError)
    → free_host r id host conflict ≡ ok freed
    → ((freed ≡ r) × (lookup (http_host host) r.routes ≡ none))
      ⊎ ((freed ≡ (unregister r (http_host host)).0)
          × (t : RouteTarget) × (lookup (http_host host) r.routes ≡ some t)
          × ((t.localup_id == id) ≡ true))
unfolding free_host exists
free_host_lem r freed id host conflict h = elim (Bool-cases (exists r (http_host host))) [
  | inl old ↦
      let cleaned = (unregister r (http_host host)).0 in
      let h' = rw (old, free_host, lookup_route-exists r (http_host host) old) at h in
      replace_own_lem id conflict r cleaned freed (lookup (http_host host) r.routes) h'
  | inr fresh ↦
      let h' : ok r ≡ ok freed = rw (fresh, free_host) at h in
      inl (cc, absent (http_host host) r.routes fresh)
]

-- The same for wildcards.
pub free_wildcard_lem :
    (r freed : RouteRegistry) (id host : Text)
    → free_wildcard r id host ≡ ok freed
    → ((freed ≡ r) × (lookup host r.wildcard_routes ≡ none))
      ⊎ ((freed ≡ (unregister_wildcard r host).0)
          × (t : RouteTarget) × (lookup host r.wildcard_routes ≡ some t)
          × ((t.localup_id == id) ≡ true))
unfolding free_wildcard wildcard_exists get_wildcard_target
free_wildcard_lem r freed id host h = elim (Bool-cases (wildcard_exists r host)) [
  | inl old ↦
      let h' = rw (old, free_wildcard) at h in
      replace_own_lem id (wildcard_in_use host) r (unregister_wildcard r host).0 freed
        (lookup host r.wildcard_routes) h'
  | inr fresh ↦
      let h' : ok r ≡ ok freed = rw (fresh, free_wildcard) at h in
      inl (cc, absent host r.wildcard_routes fresh)
]
