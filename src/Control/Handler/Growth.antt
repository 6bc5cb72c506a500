-- ===== src/Control/Handler/Growth.antt =====
-- The registration of routes, and the routes that are there before it.
use localup.Base.{
  ◌≡◌, inl, inr, none, some, List, [], ◌∷◌, Bool-cases, Eq, ◌==◌, ==_iff, nat_eq, list_eq, Map,
  lookup, insert, contains_key, lookup-insert, Text, codes, Result-cases, absent,
}
use localup.Proto.IpFilter.{IpFilter}
use localup.Router.Wildcard.{is_wildcard_pattern, parse}
use localup.Router.Registry.{
  RouteKey, tls_sni, RouteTarget, RouteRegistry, register, register_wildcard, key_eq,
}
use localup.Control.Handler.{route_target, register_pattern, register_patterns}

-- Each entry of a map is in the second one as well.
abbrev pub Grows : {K : Type 0} ⦃e : Eq K⦄ → Map K RouteTarget → Map K RouteTarget → Type 0
Grows {K} m n = (k : K) (t : RouteTarget) → lookup k m ≡ some t → lookup k n ≡ some t

insert-Grows :
    {K : Type 0} ⦃e : Eq K⦄ (k : K) (v : RouteTarget) (m : Map K RouteTarget)
    → lookup k m ≡ none
    → Grows m (insert k v m)
insert-Grows k v m fresh j t found = elim (Bool-cases (k == j)) [
  | inl hit ↦ let same : k ≡ j = (==_iff k j).0 hit in absurd (clash (rw same found))
  | inr miss ↦ rw (lookup-insert k j v m, miss) found
]
  where
    clash : lookup k m ≡ some t → ⊥
    clash x = cc

pub record Extends (r s : RouteRegistry) : Type 0 where
  pub routes_grow : Grows r.routes s.routes
  pub wildcards_grow : Grows r.wildcard_routes s.wildcard_routes

pub Extends-all : (r : RouteRegistry) → Extends r r
Extends-all r = record { routes_grow = λ k t f. f; wildcards_grow = λ k t f. f }

pub Extends-trans : (r s t : RouteRegistry) → Extends r s → Extends s t → Extends r t
Extends-trans r s t a b = record {
  routes_grow = λ k u f. b.routes_grow k u (a.routes_grow k u f);
  wildcards_grow = λ k u f. b.wildcards_grow k u (a.wildcards_grow k u f);
}

pub register-Extends :
    (r : RouteRegistry) (key : RouteKey) (target : RouteTarget)
    → Extends r (register r key target).0
unfolding register
register-Extends r key target = elim (Bool-cases (contains_key key r.routes)) [
  | inl old ↦ rw (old, register) (Extends-all r)
  | inr fresh ↦
      rw (fresh, register)
        (record {
          routes_grow = insert-Grows key target r.routes (absent key r.routes fresh);
          wildcards_grow = λ k t f. f;
        })
]

pub register_wildcard-Extends :
    (r : RouteRegistry) (pattern : Text) (target : RouteTarget)
    → Extends r (register_wildcard r pattern target).0
unfolding register_wildcard
register_wildcard-Extends r pattern target = elim (Result-cases (parse pattern)) [
  | inl (w, good) ↦ elim (Bool-cases (contains_key w.pattern r.wildcard_routes)) [
    | inl old ↦ rw (good, register_wildcard) (rw old (Extends-all r))
    | inr fresh ↦
        rw (good, register_wildcard)
          (rw fresh (record {
            routes_grow = λ k t f. f;
            wildcards_grow =
                insert-Grows w.pattern target r.wildcard_routes
                  (absent w.pattern r.wildcard_routes fresh);
          }))
  ]
  | inr (e, bad) ↦ rw (bad, register_wildcard) (Extends-all r)
]

pub register_pattern-Extends :
    (r : RouteRegistry) (id pattern : Text) (filter : IpFilter)
    → Extends r (register_pattern r id pattern filter).0
unfolding register_pattern
register_pattern-Extends r id pattern filter = elim (Bool-cases (is_wildcard_pattern pattern)) [
  | inl w ↦
      rw (w, register_pattern)
        (register_wildcard-Extends r pattern (route_target id (codes "via-tunnel") filter))
  | inr w ↦
      rw (w, register_pattern)
        (register-Extends r (tls_sni pattern) (route_target id (codes "via-tunnel") filter))
]

pub register_patterns-Extends :
    (r : RouteRegistry) (id : Text) (patterns : List Text) (filter : IpFilter)
    → Extends r (register_patterns r id patterns filter).0
unfolding register_patterns
register_patterns-Extends r id [] filter = Extends-all r
register_patterns-Extends r id (p ∷ ps) filter =
    elim (Result-cases (register_pattern r id p filter).1) [
      | inr (failure, e) ↦ rw (e, register_patterns) (register_pattern-Extends r id p filter)
      | inl (done, e) ↦
          rw (e, register_patterns)
            (Extends-trans r (register_pattern r id p filter).0 _
              (register_pattern-Extends r id p filter)
              (register_patterns-Extends (register_pattern r id p filter).0 id ps filter))
    ]
