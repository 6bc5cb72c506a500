-- ===== src/Control/Handler/Patterns.antt =====
-- The SNI patterns of a TLS tunnel, registered one after the other.
use localup.Base.{
  ◌≡◌, refl, sym, ap, ◌∙◌, subst, ◌⊎◌, inl, inr, some, List, [], ◌∷◌, ◌++◌, if◌then◌else◌,
  Bool-cases, All, nat_eq, list_eq, lookup, contains_key, lookup-insert_self, Text, codes, ok, err,
  Result-cases,
}
use localup.Proto.IpFilter.{IpFilter}
use localup.Router.Wildcard.{is_wildcard_pattern, parse}
use localup.Router.Wildcard.Format.{parse_iff}
use localup.Router.Registry.{
  RouteKey, tls_sni, RouteTarget, RouteRegistry, register, register_wildcard, key_eq,
}
use localup.Control.Handler.{
  RegisterError, Outcome, route_target, reported, register_pattern, register_patterns,
}
use localup.Control.Handler.Growth.{Extends, register_patterns-Extends}

abbrev pub via_tunnel : Text → IpFilter → RouteTarget
via_tunnel id filter = route_target id (codes "via-tunnel") filter

-- The pattern leads to the tunnel.
abbrev pub LeadsTo : Text → IpFilter → RouteRegistry → Text → Type 0
LeadsTo id filter r pattern =
    (if is_wildcard_pattern pattern
      then lookup pattern r.wildcard_routes
      else lookup (tls_sni pattern) r.routes)
    ≡ some (via_tunnel id filter)

LeadsTo-Extends :
    (id : Text) (filter : IpFilter) (r s : RouteRegistry) (pattern : Text)
    → Extends r s
    → LeadsTo id filter r pattern
    → LeadsTo id filter s pattern
LeadsTo-Extends id filter r s pattern x l = elim (Bool-cases (is_wildcard_pattern pattern)) [
  | inl wild ↦ rw wild (x.wildcards_grow pattern _ (rw wild at l))
  | inr plain ↦ rw plain (x.routes_grow (tls_sni pattern) _ (rw plain at l))
]

register_ok :
    (r s : RouteRegistry) (key : RouteKey) (target : RouteTarget)
    → reported (register r key target) ≡ (s, ok tt)
    → lookup key s.routes ≡ some target
unfolding register
register_ok r s key target h = elim (Bool-cases (contains_key key r.routes)) [
  | inl old ↦ absurd (refused (rw (old, register) at h))
  | inr fresh ↦ rw (← added (rw (fresh, register) at h)) (lookup-insert_self key target r.routes)
]
  where
    refused : {e : RegisterError} → ◌≡◌ {A = Outcome} (r, err e) (s, ok tt) → ⊥
    refused x = cc

    added : {q : RouteRegistry} → ◌≡◌ {A = Outcome} (q, ok tt) (s, ok tt) → q ≡ s
    added x = cc

register_wildcard_ok :
    (r s : RouteRegistry) (pattern : Text) (target : RouteTarget)
    → reported (register_wildcard r pattern target) ≡ (s, ok tt)
    → lookup pattern s.wildcard_routes ≡ some target
unfolding register_wildcard
register_wildcard_ok r s pattern target h = elim (Result-cases (parse pattern)) [
  | inr (e, bad) ↦ absurd (refused (rw (bad, register_wildcard) at h))
  | inl (w, good) ↦
      let same : w.pattern ≡ pattern = ((parse_iff pattern w).0 good).0 in
      elim (Bool-cases (contains_key pattern r.wildcard_routes)) [
        | inl old ↦ absurd (refused (rw (good, register_wildcard, same, old) at h))
        | inr fresh ↦
            rw (← added (rw (good, register_wildcard, same, fresh) at h))
              (lookup-insert_self pattern target r.wildcard_routes)
      ]
]
  where
    refused : {e : RegisterError} → ◌≡◌ {A = Outcome} (r, err e) (s, ok tt) → ⊥
    refused x = cc

    added : {q : RouteRegistry} → ◌≡◌ {A = Outcome} (q, ok tt) (s, ok tt) → q ≡ s
    added x = cc

register_pattern-LeadsTo :
    (r s : RouteRegistry) (id pattern : Text) (filter : IpFilter)
    → register_pattern r id pattern filter ≡ (s, ok tt)
    → LeadsTo id filter s pattern
unfolding register_pattern
register_pattern-LeadsTo r s id pattern filter h = elim (Bool-cases (is_wildcard_pattern pattern)) [
  | inl wild ↦
      rw wild
        (register_wildcard_ok r s pattern (via_tunnel id filter) (rw (wild, register_pattern) at h))
  | inr plain ↦
      rw plain (
        register_ok r s (tls_sni pattern) (via_tunnel id filter)
          (rw (plain, register_pattern) at h))
]

-- The outcome of the loop is that of its first part, up to the first failure.
patterns_step :
    (r : RouteRegistry) (id p : Text) (ps : List Text) (filter : IpFilter) (s : RouteRegistry)
    → register_pattern r id p filter ≡ (s, ok tt)
    → register_patterns r id (p ∷ ps) filter ≡ register_patterns s id ps filter
unfolding register_patterns
patterns_step r id p ps filter s e =
    ap
      (λ (o : Outcome). elim o.1 as (λ _. Outcome) [
        | err f ↦ (o.0, err f)
        | ok _ ↦ register_patterns o.0 id ps filter
      ])
      e

patterns_stop :
    (r : RouteRegistry) (id p : Text) (ps : List Text) (filter : IpFilter) (s : RouteRegistry)
    (e : RegisterError)
    → register_pattern r id p filter ≡ (s, err e)
    → register_patterns r id (p ∷ ps) filter ≡ (s, err e)
unfolding register_patterns
patterns_stop r id p ps filter s e h =
    ap
      (λ (o : Outcome). elim o.1 as (λ _. Outcome) [
        | err f ↦ (o.0, err f)
        | ok _ ↦ register_patterns o.0 id ps filter
      ])
      h

Outcome-cases :
    (o : Outcome)
    → ((s : RouteRegistry) × (o ≡ (s, ok tt)))
      ⊎ ((s : RouteRegistry) × (e : RegisterError) × (o ≡ (s, err e)))
Outcome-cases (s, ok tt) = inl (s, refl)
Outcome-cases (s, err e) = inr (s, e, refl)

-- A successful registration of a TLS tunnel leads every one of its patterns to the tunnel, with its filter,
-- the wildcards among the wildcards and the others as SNI routes.
pub register_patterns-LeadsTo :
    (r s : RouteRegistry) (id : Text) (patterns : List Text) (filter : IpFilter)
    → register_patterns r id patterns filter ≡ (s, ok tt)
    → All (LeadsTo id filter s) patterns
unfolding register_patterns
register_patterns-LeadsTo r s id [] filter h = tt
register_patterns-LeadsTo r s id (p ∷ ps) filter h =
    elim (Outcome-cases (register_pattern r id p filter)) [
      | inl (q, e) ↦
          let rest : register_patterns q id ps filter ≡ (s, ok tt) =
            sym (patterns_step r id p ps filter q e) ∙ h in
          (
            LeadsTo-Extends id filter q s p
                (subst (λ o. Extends q o.0) rest (register_patterns-Extends q id ps filter))
                (register_pattern-LeadsTo r q id p filter e),
            register_patterns-LeadsTo q s id ps filter rest,
          )
      | inr (q, f, e) ↦ absurd (refused (sym (patterns_stop r id p ps filter q f e) ∙ h))
    ]
  where
    refused : {q : RouteRegistry} {e : RegisterError} → ◌≡◌ {A = Outcome} (q, err e) (s, ok tt) → ⊥
    refused x = cc

register_failed :
    (r s : RouteRegistry) (key : RouteKey) (target : RouteTarget) (e : RegisterError)
    → reported (register r key target) ≡ (s, err e)
    → s ≡ r
unfolding register
register_failed r s key target e h = elim (Bool-cases (contains_key key r.routes)) [
  | inl old ↦ sym (ap (λ o. o.0) (rw (old, register) at h))
  | inr fresh ↦ absurd (succeeded (rw (fresh, register) at h))
]
  where
    succeeded : {q : RouteRegistry} → ◌≡◌ {A = Outcome} (q, ok tt) (s, err e) → ⊥
    succeeded x = cc

register_wildcard_failed :
    (r s : RouteRegistry) (pattern : Text) (target : RouteTarget) (e : RegisterError)
    → reported (register_wildcard r pattern target) ≡ (s, err e)
    → s ≡ r
unfolding register_wildcard
register_wildcard_failed r s pattern target e h = elim (Result-cases (parse pattern)) [
  | inr (f, bad) ↦ sym (ap (λ o. o.0) (rw (bad, register_wildcard) at h))
  | inl (w, good) ↦ elim (Bool-cases (contains_key w.pattern r.wildcard_routes)) [
    | inl old ↦ sym (ap (λ o. o.0) (rw (good, register_wildcard, old) at h))
    | inr fresh ↦ absurd (succeeded (rw (good, register_wildcard, fresh) at h))
  ]
]
  where
    succeeded : {q : RouteRegistry} → ◌≡◌ {A = Outcome} (q, ok tt) (s, err e) → ⊥
    succeeded x = cc

pattern_failed :
    (r s : RouteRegistry) (id pattern : Text) (filter : IpFilter) (e : RegisterError)
    → register_pattern r id pattern filter ≡ (s, err e)
    → s ≡ r
unfolding register_pattern
pattern_failed r s id pattern filter e h = elim (Bool-cases (is_wildcard_pattern pattern)) [
  | inl wild ↦
      register_wildcard_failed r s pattern (via_tunnel id filter) e
        (rw (wild, register_pattern) at h)
  | inr plain ↦
      register_failed r s (tls_sni pattern) (via_tunnel id filter) e
        (rw (plain, register_pattern) at h)
]

-- A failed registration stops at the first pattern that fails: the registry then is the one that the
-- successful registration of the patterns before it leaves, which nothing takes back.
pub register_patterns-stops :
    (r s : RouteRegistry) (id : Text) (patterns : List Text) (filter : IpFilter) (e : RegisterError)
    → register_patterns r id patterns filter ≡ (s, err e)
    → (before : List Text) × (p : Text) × (after : List Text) × (patterns ≡ before ++ (p ∷ after))
      × (register_patterns r id before filter ≡ (s, ok tt))
      × (register_pattern s id p filter ≡ (s, err e))
unfolding register_patterns
register_patterns-stops r s id [] filter e h = absurd (succeeded h)
  where
    succeeded : ◌≡◌ {A = Outcome} (r, ok tt) (s, err e) → ⊥
    succeeded x = cc
register_patterns-stops r s id (p ∷ ps) filter e h =
    elim (Outcome-cases (register_pattern r id p filter)) [
      | inl (q, f) ↦
          let rest : register_patterns q id ps filter ≡ (s, err e) =
            sym (patterns_step r id p ps filter q f) ∙ h in
          let (before, bad, after, parts, good, failed) =
            register_patterns-stops q s id ps filter e rest in
          (
            p ∷ before,
            bad,
            after,
            ap (λ l. p ∷ l) parts,
            patterns_step r id p before filter q f ∙ good,
            failed,
          )
      | inr (q, g, f) ↦
          let same : ◌≡◌ {A = Outcome} (q, err g) (s, err e) =
            sym (patterns_stop r id p ps filter q g f) ∙ h in
          let kept : q ≡ r = pattern_failed r q id p filter g f in
          let unchanged : r ≡ s = sym kept ∙ ap (λ o. o.0) same in
          (
            [],
            p,
            ps,
            refl,
            ap (λ q. (q, ok tt)) unchanged,
            subst (λ q. register_pattern q id p filter ≡ (s, err e)) unchanged (f ∙ same),
          )
    ]
