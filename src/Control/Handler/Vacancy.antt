-- ===== src/Control/Handler/Vacancy.antt =====
-- The places of the registry: free, the tunnel's own, or another tunnel's.
use localup.Base.{
  ◌≡◌, refl, ap, ◌∙◌, inl, inr, Bool, true, Option, none, some, ◌∷◌, if◌then◌else◌, Bool-cases,
  Option-cases, Eq, ◌==◌, ==_refl, nat_eq, list_eq, Map, lookup, remove, insert, contains_key,
  lookup-remove, remove_absent, Text, codes, ok, err,
}
use localup.Proto.IpFilter.{IpFilter}
use localup.Router.Wildcard.{WildcardPattern, parse}
use localup.Router.Wildcard.Format.{parse_iff}
use localup.Router.Registry.{
  RouteKey, http_host, RouteTarget, RouteRegistry, register, register_wildcard, unregister,
  unregister_wildcard, exists, wildcard_exists, get_wildcard_target, lookup_route, key_eq,
}
use localup.Control.Handler.{
  RegisterError, wildcard_in_use, route_target, free_wildcard, free_host, register_wildcard_host,
  register_host,
}

-- Nobody, or the tunnel itself, holds the place.
abbrev pub is_available : Text → Option RouteTarget → Bool
is_available id none = true
is_available id (some t) = t.localup_id == id

abbrev pub with_route : RouteRegistry → Text → RouteTarget → RouteRegistry
with_route r host target = record r { routes = insert (http_host host) target r.routes }

abbrev pub with_wildcard : RouteRegistry → Text → RouteTarget → RouteRegistry
with_wildcard r host target = record r { wildcard_routes = insert host target r.wildcard_routes }

pub insert-remove {ℓ κ} :
    {K : Type ℓ} {V : Type κ} ⦃e : Eq K⦄ (k : K) (v : V) (m : Map K V)
    → insert k v (remove k m) ≡ insert k v m
unfolding insert
insert-remove k v m =
    ap (λ rest. (k, v) ∷ rest)
      (remove_absent k (remove k m) (rw (lookup-remove k k m, ==_refl k) refl))

register_fresh :
    (r : RouteRegistry) (host : Text) (target : RouteTarget)
    → lookup (http_host host) r.routes ≡ none
    → register r (http_host host) target ≡ (with_route r host target, ok tt)
unfolding register contains_key
register_fresh r host target e = rw (e, register) refl

register_taken :
    (r : RouteRegistry) (host : Text) (target : RouteTarget)
    → register (unregister r (http_host host)).0 (http_host host) target
      ≡ (with_route r host target, ok tt)
unfolding unregister
register_taken r host target =
    let key = http_host host in
    register_fresh (unregister r key).0 host target
      (rw (lookup-remove key key r.routes, ==_refl key) refl)
    ∙ ap (λ m. (record r { routes = m }, ok tt)) (insert-remove key target r.routes)

pattern_lem : (host : Text) (w : WildcardPattern) → parse host ≡ ok w → w.pattern ≡ host
pattern_lem host w good = ((parse_iff host w).0 good).0

register_wildcard_fresh :
    (r : RouteRegistry) (host : Text) (w : WildcardPattern) (target : RouteTarget)
    → parse host ≡ ok w
    → lookup host r.wildcard_routes ≡ none
    → register_wildcard r host target ≡ (with_wildcard r host target, ok tt)
unfolding register_wildcard contains_key
register_wildcard_fresh r host w target good e =
    rw (good, register_wildcard) (rw (pattern_lem host w good) (rw e refl))

wildcard_taken :
    (r : RouteRegistry) (host : Text) (w : WildcardPattern) (target : RouteTarget)
    → parse host ≡ ok w
    → register_wildcard (unregister_wildcard r host).0 host target
      ≡ (with_wildcard r host target, ok tt)
unfolding unregister_wildcard
wildcard_taken r host w target good =
    register_wildcard_fresh (unregister_wildcard r host).0 host w target good
      (rw (lookup-remove host host r.wildcard_routes, ==_refl host) refl)
    ∙ ap (λ m. (record r { wildcard_routes = m }, ok tt))
        (insert-remove host target r.wildcard_routes)

module _ (r freed : RouteRegistry) (id host : Text) (conflict : RegisterError)
    (filter : IpFilter) where
  -- A host that was made free is registered.
  freed_host :
      (metadata : Text) (registered : RouteRegistry)
      → free_host r id host conflict ≡ ok freed
      → register freed (http_host host) (route_target id metadata filter) ≡ (registered, ok tt)
      → register_host r id host conflict metadata filter ≡ (registered, ok tt)
  unfolding register_host
  freed_host metadata registered e f = rw (e, register_host) (rw f refl)

  freed_wildcard :
      (w : WildcardPattern) (registered : RouteRegistry)
      → parse host ≡ ok w
      → free_wildcard r id host ≡ ok freed
      → register_wildcard freed host (route_target id (codes "wildcard-domain") filter)
        ≡ (registered, ok tt)
      → register_wildcard_host r id host filter ≡ (registered, ok tt)
  unfolding register_wildcard_host
  freed_wildcard w registered good e f = rw (good, register_wildcard_host) (rw e (rw f refl))

exact_route :
    (r : RouteRegistry) (key : RouteKey) (t : RouteTarget)
    → lookup key r.routes ≡ some t
    → lookup_route r key ≡ ok t
unfolding lookup_route
exact_route r key t e = rw (e, lookup_route) refl

module _ (r : RouteRegistry) (id host : Text) where
  free_host_vacant :
      (conflict : RegisterError)
      → lookup (http_host host) r.routes ≡ none
      → free_host r id host conflict ≡ ok r
  unfolding free_host exists contains_key
  free_host_vacant conflict e = rw e refl

  free_host_held :
      (conflict : RegisterError) (t : RouteTarget)
      → lookup (http_host host) r.routes ≡ some t
      → free_host r id host conflict
        ≡ (if t.localup_id == id then ok (unregister r (http_host host)).0 else err conflict)
  unfolding free_host exists contains_key
  free_host_held conflict t e = rw e (rw (exact_route r (http_host host) t e) refl)

  free_wildcard_vacant : lookup host r.wildcard_routes ≡ none → free_wildcard r id host ≡ ok r
  unfolding free_wildcard wildcard_exists contains_key
  free_wildcard_vacant e = rw e refl

  free_wildcard_held :
      (t : RouteTarget)
      → lookup host r.wildcard_routes ≡ some t
      → free_wildcard r id host ≡ (
          if t.localup_id == id
          then ok (unregister_wildcard r host).0
          else err (wildcard_in_use host))
  unfolding free_wildcard wildcard_exists contains_key get_wildcard_target
  free_wildcard_held t e = rw e refl

pub register_host-available :
    (r : RouteRegistry) (id host : Text) (conflict : RegisterError) (metadata : Text)
    (filter : IpFilter)
    → register_host r id host conflict metadata filter ≡ (
        if is_available id (lookup (http_host host) r.routes)
        then (with_route r host (route_target id metadata filter), ok tt)
        else (r, err conflict))
unfolding register_host
register_host-available r id host conflict metadata filter =
    let target = route_target id metadata filter in
    elim (Option-cases (lookup (http_host host) r.routes)) [
      | inl e ↦ rw e (
          freed_host r r id host conflict filter metadata (with_route r host target)
            (free_host_vacant r id host conflict e) (register_fresh r host target e))
      | inr (t, e) ↦
          let held = free_host_held r id host conflict t e in
          elim (Bool-cases (t.localup_id == id)) [
            | inl own ↦
                rw (e, own)
                  (freed_host r (unregister r (http_host host)).0 id host conflict filter metadata
                    (with_route r host target) (rw own at held) (register_taken r host target))
            | inr other ↦ rw (e, other) (rw (rw other at held, register_host) refl)
          ]
    ]

pub register_wildcard_host-available :
    (r : RouteRegistry) (id host : Text) (w : WildcardPattern) (filter : IpFilter)
    → parse host ≡ ok w
    → register_wildcard_host r id host filter ≡ (
        if is_available id (lookup host r.wildcard_routes)
        then (with_wildcard r host (route_target id (codes "wildcard-domain") filter), ok tt)
        else (r, err (wildcard_in_use host)))
unfolding register_wildcard_host
register_wildcard_host-available r id host w filter good =
    let target = route_target id (codes "wildcard-domain") filter in
    let conflict = wildcard_in_use host in
    elim (Option-cases (lookup host r.wildcard_routes)) [
      | inl e ↦ rw e (
          freed_wildcard r r id host conflict filter w (with_wildcard r host target) good
            (free_wildcard_vacant r id host e) (register_wildcard_fresh r host w target good e))
      | inr (t, e) ↦
          let held = free_wildcard_held r id host t e in
          elim (Bool-cases (t.localup_id == id)) [
            | inl own ↦
                rw (e, own)
                  (freed_wildcard r (unregister_wildcard r host).0 id host conflict filter w
                    (with_wildcard r host target) good (rw own at held)
                    (wildcard_taken r host w target good))
            | inr other ↦
                rw (e, other) (rw (good, register_wildcard_host) (rw (rw other at held) refl))
          ]
    ]
