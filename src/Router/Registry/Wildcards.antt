-- ===== src/Router/Registry/Wildcards.antt =====
-- The parent pattern finds the one registered pattern that matches.
use localup.Base.{
  ◌≡◌, refl, sym, subst, ◌↔◌, ◌⊎◌, inl, inr, true, Option, none, some, arith, Option-cases, nat_eq,
  list_eq, lookup, Text, Result, ok, err, Result-cases,
}
use localup.Router.Wildcard.{
  WildcardPattern, WildcardError, parse, matches, extract_parent_wildcard,
}
use localup.Router.Wildcard.Format.{matches_iff_parent}
use localup.Router.Registry.{
  key_eq, RouteKey, tcp_port, tls_sni, http_host, RouteTarget, RouteRegistry, verify,
  lookup_wildcard, lookup_route, fallback,
}

-- A registered pattern that is accepted and matches, found by looking at all of them.
abbrev pub IsMatch : RouteRegistry → Text → RouteTarget → Text → Type 0
IsMatch r hostname target p =
    (w : WildcardPattern) × (parse p ≡ ok w)
    × (matches w hostname ≡ true)
    × (lookup p r.wildcard_routes ≡ some target)

lookup_wildcard_of_match :
    (r : RouteRegistry) (hostname p : Text) (target : RouteTarget)
    → IsMatch r hostname target p
    → lookup_wildcard r hostname ≡ some target
unfolding lookup_wildcard verify
lookup_wildcard_of_match r hostname p target (w, good, m, found) =
    let (parent, undotted) = (matches_iff_parent p w hostname good).0 m in
    rw (parent, lookup_wildcard) (rw (found, good) (rw m))

IsMatch-verify :
    (r : RouteRegistry) (hostname p : Text) (target : RouteTarget)
    → lookup p r.wildcard_routes ≡ some target
    → verify (parse p) hostname target ≡ some target
    → IsMatch r hostname target p
unfolding verify
IsMatch-verify r hostname p target found h = elim (Result-cases (parse p)) [
  | inl (w, good) ↦ (w, good, accepted w (rw good at h), found)
  | inr (e, bad) ↦ absurd (refused e (rw bad at h))
]
  where
    accepted :
        (w : WildcardPattern)
        → verify (ok w) hostname target ≡ some target
        → matches w hostname ≡ true
    accepted w v = ground arith

    refused : (e : WildcardError) → verify (err e) hostname target ≡ some target → ⊥
    refused e v = cc

verify-eq-some :
    (parsed : Result WildcardError WildcardPattern) (hostname : Text) (target found : RouteTarget)
    → verify parsed hostname target ≡ some found
    → target ≡ found
unfolding verify
verify-eq-some (ok w) hostname target found h = ground arith
verify-eq-some (err e) hostname target found h = cc

IsMatch-lookup_wildcard :
    (r : RouteRegistry) (hostname : Text) (target : RouteTarget) (parent : Option Text)
    → extract_parent_wildcard hostname ≡ parent
    → lookup_wildcard r hostname ≡ some target
    → (p : Text) × IsMatch r hostname target p
unfolding lookup_wildcard
IsMatch-lookup_wildcard r hostname target none e h = absurd (bad (rw (e, lookup_wildcard) at h))
  where
    bad : none ≡ some target → ⊥
    bad x = cc
IsMatch-lookup_wildcard r hostname target (some p) e h =
    let h' = rw (e, lookup_wildcard) at h in
    elim (Option-cases (lookup p r.wildcard_routes)) [
      | inl missing ↦ absurd (bad (rw missing at h'))
      | inr (t, found) ↦ verified t found (rw found at h')
    ]
  where
    bad : none ≡ some target → ⊥
    bad x = cc

    verified :
        (t : RouteTarget)
        → lookup p r.wildcard_routes ≡ some t
        → verify (parse p) hostname t ≡ some target
        → (p : Text) × IsMatch r hostname target p
    verified t found v =
        let same : t ≡ target = verify-eq-some (parse p) hostname t target v in
        (
          p,
          IsMatch-verify r hostname p target (rw (← same) found)
              (subst (λ u. verify (parse p) hostname u ≡ some target) same v),
        )

-- The lookup of one key, the parent pattern, finds a target exactly if some registered pattern that the
-- parser accepts matches the hostname and leads to that target.
pub lookup_wildcard_iff :
    (r : RouteRegistry) (hostname : Text) (target : RouteTarget)
    → (lookup_wildcard r hostname ≡ some target) ↔ ((p : Text) × IsMatch r hostname target p)
lookup_wildcard_iff r hostname target = (
  IsMatch-lookup_wildcard r hostname target (extract_parent_wildcard hostname) refl,
  λ (p, m). lookup_wildcard_of_match r hostname p target m,
)

-- Two accepted patterns that match one hostname are the same.
pub matches_unique :
    (p q hostname : Text) (v w : WildcardPattern)
    → parse p ≡ ok v
    → parse q ≡ ok w
    → matches v hostname ≡ true
    → matches w hostname ≡ true
    → p ≡ q
matches_unique p q hostname v w good good' m m' =
    let first = (matches_iff_parent p v hostname good).0 m in
    let second = (matches_iff_parent q w hostname good').0 m' in cc (first.0, second.0)

-- The hostname of a key, which TCP ports lack.
abbrev pub hostname_of : RouteKey → Option Text
hostname_of (tcp_port port) = none
hostname_of (tls_sni sni) = some sni
hostname_of (http_host host) = some host

abbrev pub FallsBack : RouteRegistry → RouteKey → RouteTarget → Type 0
FallsBack r key target =
    (hostname : Text) × (p : Text) × (hostname_of key ≡ some hostname) × IsMatch r hostname target p

fallback_iff :
    (r : RouteRegistry) (key : RouteKey) (target : RouteTarget)
    → (fallback r key ≡ some target) ↔ FallsBack r key target
unfolding fallback
fallback_iff r (tcp_port port) target = (λ e. cc, λ f. absurd (bad f.2))
  where
    bad : {h : Text} → none ≡ some h → ⊥
    bad e = cc
fallback_iff r (tls_sni sni) target = (
  λ e. let (p, m) = (lookup_wildcard_iff r sni target).0 e in (sni, p, refl, m),
  λ (h, p, e, m).
      (lookup_wildcard_iff r sni target).1 (p, subst (λ k. IsMatch r k target p) (sym (inj e)) m),
)
  where
    inj : {h : Text} → some sni ≡ some h → sni ≡ h
    inj e = cc
fallback_iff r (http_host host) target = (
  λ e. let (p, m) = (lookup_wildcard_iff r host target).0 e in (host, p, refl, m),
  λ (h, p, e, m).
      (lookup_wildcard_iff r host target).1 (p, subst (λ k. IsMatch r k target p) (sym (inj e)) m),
)
  where
    inj : {h : Text} → some host ≡ some h → host ≡ h
    inj e = cc

-- A key leads to a target exactly if an exact route does, or if there is no exact route, the key has a
-- hostname, and a registered pattern that matches it leads there.
pub lookup_route_iff :
    (r : RouteRegistry) (key : RouteKey) (target : RouteTarget)
    → (lookup_route r key ≡ ok target) ↔ (
        (lookup key r.routes ≡ some target)
        ⊎ ((lookup key r.routes ≡ none) × FallsBack r key target))
unfolding lookup_route
lookup_route_iff r key target =
    let (to, from) = fallback_iff r key target in
    elim (Option-cases (lookup key r.routes)) [
      | inl missing ↦ (
        λ h. inr (missing, to (ground arith)),
        elim [ inl e ↦ ground (arith, e) | inr (m, f) ↦ ground (arith, missing, from f) ],
      )
      | inr (t, found) ↦ (
        λ h. inl (ground arith),
        elim [ inl e ↦ ground (arith, e) | inr (m, f) ↦ ground (arith, found, m) ],
      )
    ]
