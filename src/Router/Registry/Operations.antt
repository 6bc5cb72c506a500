-- ===== src/Router/Registry/Operations.antt =====
-- The operations of the registry: what they keep, and how they undo one another.
use localup.Base.{
  ◌≡◌, refl, inl, inr, true, false, none, List, [], ◌∷◌, arith, if◌then◌else◌, Bool-cases, All, Eq,
  ◌==◌, nat_eq, list_eq, Map, lookup, remove, insert, contains_key, Distinct, lookup-insert,
  lookup-insert_self, remove-Distinct, insert-Distinct, Text, ok, is_ok, Result-cases, absent,
  remove-insert_absent,
}
use localup.Router.Wildcard.{WildcardPattern, parse}
use localup.Router.Wildcard.Format.{parse_iff}
use localup.Router.Registry.{
  key_eq, RouteKey, tcp_port, tls_sni, http_host, RouteTarget, RouteRegistry, new, register,
  register_wildcard, unregister, unregister_wildcard, removed, clear, exists, lookup_wildcard,
  lookup_route, fallback,
}

-- Each key stands once in its map, and every wildcard key is a pattern that the parser accepts.
pub record Inv (r : RouteRegistry) : Type 0 where
  pub routes_distinct : Distinct r.routes
  pub wildcards_distinct : Distinct r.wildcard_routes
  pub accepted : All (λ (e : Text × RouteTarget). is_ok (parse e.0) ≡ true) r.wildcard_routes

-- The calls that change the registry.
pub data Call : Type 0 where
  registers : RouteKey → RouteTarget → Call
  registers_wildcard : Text → RouteTarget → Call
  unregisters : RouteKey → Call
  unregisters_wildcard : Text → Call
  clears : Call

pub step : RouteRegistry → Call → RouteRegistry
step r (registers key target) = (register r key target).0
step r (registers_wildcard pattern target) = (register_wildcard r pattern target).0
step r (unregisters key) = (unregister r key).0
step r (unregisters_wildcard pattern) = (unregister_wildcard r pattern).0
step r clears = clear r

pub run : RouteRegistry → List Call → RouteRegistry
unfolding step
run r [] = r
run r (c ∷ cs) = run (step r c) cs

remove-All {ℓ κ μ} :
    {K : Type ℓ} {V : Type κ} ⦃e : Eq K⦄ (P : K × V → Type μ) (k : K) (m : Map K V)
    → All P m
    → All P (remove k m)
unfolding remove
remove-All P k [] a = tt
remove-All P k ((j, v) ∷ m) a = elim (Bool-cases (j == k)) [
  | inl hit ↦ rw hit (remove-All P k m a.1)
  | inr miss ↦ rw miss (a.0, remove-All P k m a.1)
]

pattern_of_parse : (p : Text) (w : WildcardPattern) → parse p ≡ ok w → w.pattern ≡ p
pattern_of_parse p w h = ((parse_iff p w).0 h).0

accepted_pattern :
    (p : Text) (w : WildcardPattern) → parse p ≡ ok w → is_ok (parse w.pattern) ≡ true
accepted_pattern p w h = rw (pattern_of_parse p w h, h)

pub register-Inv :
    (r : RouteRegistry) (key : RouteKey) (target : RouteTarget)
    → Inv r
    → Inv (register r key target).0
unfolding register
register-Inv r key target v = elim (Bool-cases (contains_key key r.routes)) [
  | inl old ↦ rw (old, register) v
  | inr fresh ↦
      rw (fresh, register)
        (record {
          routes_distinct = insert-Distinct key target r.routes v.routes_distinct;
          wildcards_distinct = v.wildcards_distinct;
          accepted = v.accepted;
        })
]

pub register_wildcard-Inv :
    (r : RouteRegistry) (pattern : Text) (target : RouteTarget)
    → Inv r
    → Inv (register_wildcard r pattern target).0
unfolding register_wildcard insert
register_wildcard-Inv r pattern target v = elim (Result-cases (parse pattern)) [
  | inl (w, good) ↦ elim (Bool-cases (contains_key w.pattern r.wildcard_routes)) [
    | inl old ↦ rw (good, register_wildcard) (rw old v)
    | inr fresh ↦
        rw (good, register_wildcard)
          (rw fresh (record {
            routes_distinct = v.routes_distinct;
            wildcards_distinct =
                insert-Distinct w.pattern target r.wildcard_routes v.wildcards_distinct;
            accepted = (
              accepted_pattern pattern w good,
              remove-All _ w.pattern r.wildcard_routes v.accepted,
            );
          }))
  ]
  | inr (e, bad) ↦ rw (bad, register_wildcard) v
]

pub unregister-Inv : (r : RouteRegistry) (key : RouteKey) → Inv r → Inv (unregister r key).0
unfolding unregister
unregister-Inv r key v = record {
  routes_distinct = remove-Distinct key r.routes v.routes_distinct;
  wildcards_distinct = v.wildcards_distinct;
  accepted = v.accepted;
}

pub unregister_wildcard-Inv :
    (r : RouteRegistry) (pattern : Text) → Inv r → Inv (unregister_wildcard r pattern).0
unfolding unregister_wildcard
unregister_wildcard-Inv r pattern v = record {
  routes_distinct = v.routes_distinct;
  wildcards_distinct = remove-Distinct pattern r.wildcard_routes v.wildcards_distinct;
  accepted = remove-All _ pattern r.wildcard_routes v.accepted;
}

-- Every call keeps the registry well formed.
pub step-Inv : (r : RouteRegistry) (c : Call) → Inv r → Inv (step r c)
unfolding step clear
step-Inv r (registers key target) v = register-Inv r key target v
step-Inv r (registers_wildcard pattern target) v = register_wildcard-Inv r pattern target v
step-Inv r (unregisters key) v = unregister-Inv r key v
step-Inv r (unregisters_wildcard pattern) v = unregister_wildcard-Inv r pattern v
step-Inv r clears v = record { routes_distinct = tt; wildcards_distinct = tt; accepted = tt }

run-Inv : (r : RouteRegistry) (cs : List Call) → Inv r → Inv (run r cs)
unfolding run
run-Inv r [] v = v
run-Inv r (c ∷ cs) v = run-Inv (step r c) cs (step-Inv r c v)

-- Every history of calls, from an empty registry, leaves it well formed: each key stands once in its
-- map, and every wildcard key is a pattern that the parser accepts.
pub run-new-Inv : (cs : List Call) → Inv (run new cs)
unfolding new
run-new-Inv cs =
    run-Inv _ cs (record { routes_distinct = tt; wildcards_distinct = tt; accepted = tt })

fallback-routes :
    (r : RouteRegistry) (routes : Map RouteKey RouteTarget) (k : RouteKey)
    → fallback (record r { routes = routes }) k ≡ fallback r k
unfolding fallback lookup_wildcard
fallback-routes r routes (tcp_port p) = refl
fallback-routes r routes (tls_sni s) = refl
fallback-routes r routes (http_host h) = refl

-- A route under a new key is registered; afterwards this key leads to its target and every other key to
-- what it led to before.
pub lookup-register :
    (r : RouteRegistry) (key k : RouteKey) (target : RouteTarget)
    → exists r key ≡ false
    → ((register r key target).1 ≡ ok tt)
      × (lookup_route (register r key target).0 k
          ≡ (if key == k then ok target else lookup_route r k))
unfolding exists register lookup_route
lookup-register r key k target fresh =
    rw (fresh, register)
      (
        refl,
        ground (
          arith,
          lookup-insert key k target r.routes,
          fallback-routes r (insert key target r.routes) k,
        ),
      )

-- Unregistering a key that was registered anew gives its target and the registry of before.
pub unregister-register :
    (r : RouteRegistry) (key : RouteKey) (target : RouteTarget)
    → exists r key ≡ false
    → unregister (register r key target).0 key ≡ (r, ok target)
unfolding exists register unregister removed
unregister-register r key target fresh =
    let missing : lookup key r.routes ≡ none = absent key r.routes fresh in
    rw (fresh, register)
      (rw
        (remove-insert_absent key target r.routes missing, lookup-insert_self key target r.routes))
