-- ===== src/Router/Registry/Existence.antt =====
-- When the test for a route agrees with its lookup.
use localup.Base.{
  ◌≡◌, refl, subst, inl, inr, Bool, true, false, not, ◌&&◌, none, some, [], ◌∷◌, arith,
  if◌then◌else◌, Bool-cases, Option-cases, is_some, All, ◌==◌, ==_iff, nat_eq, list_eq, Map, lookup,
  contains_key, Text, codes, starts_with, err, is_ok, Result-cases,
}
use localup.Router.Wildcard.{
  WildcardError, WildcardPattern, parse, matches, extract_parent_wildcard,
}
use localup.Router.Wildcard.Format.{matches_iff_parent}
use localup.Router.Registry.{
  key_eq, RouteKey, tcp_port, tls_sni, http_host, RouteTarget, RouteRegistry, verify,
  lookup_wildcard, lookup_route, fallback, parent_exists, parent_exists_key, exists_with_wildcard,
}
use localup.Router.Registry.Operations.{Inv}

abbrev pub StartsWithDot : Text → Type 0
StartsWithDot hostname = starts_with (codes ".") hostname ≡ true

accepted_lookup :
    (k : Text) (m : Map Text RouteTarget) {t : RouteTarget}
    → All (λ (e : Text × RouteTarget). is_ok (parse e.0) ≡ true) m
    → lookup k m ≡ some t
    → is_ok (parse k) ≡ true
unfolding lookup
accepted_lookup k [] a h = absurd (bad h)
  where
    bad : {t : RouteTarget} → none ≡ some t → ⊥
    bad e = cc
accepted_lookup k ((j, v) ∷ m) a h = elim (Bool-cases (j == k)) [
  | inl hit ↦ subst (λ x. is_ok (parse x) ≡ true) ((==_iff j k).0 hit) a.0
  | inr miss ↦ accepted_lookup k m a.1 (rw miss at h)
]

-- An accepted parent pattern that is registered is found, unless the hostname starts with a dot.
verified :
    (p hostname : Text) (t : RouteTarget)
    → is_ok (parse p) ≡ true
    → extract_parent_wildcard hostname ≡ some p
    → verify (parse p) hostname t ≡ (if starts_with (codes ".") hostname then none else some t)
unfolding verify
verified p hostname t good e = elim (Result-cases (parse p)) [
  | inl (w, h) ↦ elim (Bool-cases (starts_with (codes ".") hostname)) [
    | inl dot ↦
        rw (h, dot) (missed w dot (matches_iff_parent p w hostname h).0 (matches w hostname) refl)
    | inr plain ↦ rw (h, plain) (rw ((matches_iff_parent p w hostname h).1 (e, plain)))
  ]
  | inr (x, h) ↦ absurd (bad x (rw h at good))
]
  where
    bad : (x : WildcardError) → is_ok {A = WildcardPattern} (err x) ≡ true → ⊥
    bad x e = cc

    clash : {b : Bool} → b ≡ false → b ≡ true → ⊥
    clash e e' = cc

    missed :
        (w : WildcardPattern)
        → starts_with (codes ".") hostname ≡ true
        → (matches w hostname ≡ true
            → (extract_parent_wildcard hostname ≡ some p)
              × (starts_with (codes ".") hostname ≡ false))
        → (b : Bool) → matches w hostname ≡ b
        → (if matches w hostname then some t else none) ≡ none
    missed w dot f true m = absurd (clash (f m).1 dot)
    missed w dot f false m = rw m

parent_exists-lookup :
    (r : RouteRegistry) (hostname : Text)
    → Inv r
    → is_some (lookup_wildcard r hostname)
      ≡ (parent_exists r hostname && not (starts_with (codes ".") hostname))
unfolding parent_exists lookup_wildcard contains_key
parent_exists-lookup r hostname v = elim (Option-cases (extract_parent_wildcard hostname)) [
  | inl none_there ↦ ground (arith, none_there)
  | inr (p, parent) ↦ elim (Option-cases (lookup p r.wildcard_routes)) [
    | inl missing ↦ ground (arith, parent, missing)
    | inr (t, found) ↦ ground (
      arith,
      parent,
      found,
      verified p hostname t (accepted_lookup p r.wildcard_routes v.accepted found) parent,
    )
  ]
]

-- Whether the hostname of a key starts with a dot; a TCP port has none.
abbrev pub leading_dot : RouteKey → Bool
leading_dot (tcp_port port) = false
leading_dot (tls_sni sni) = starts_with (codes ".") sni
leading_dot (http_host host) = starts_with (codes ".") host

fallback-exists :
    (r : RouteRegistry) (key : RouteKey)
    → Inv r
    → is_some (fallback r key) ≡ (parent_exists_key r key && not (leading_dot key))
unfolding fallback parent_exists_key
fallback-exists r (tcp_port port) v = refl
fallback-exists r (tls_sni sni) v = parent_exists-lookup r sni v
fallback-exists r (http_host host) v = parent_exists-lookup r host v

-- In a well-formed registry, a key without an exact route that the test for a route accepts is found by
-- the lookup exactly if its hostname does not start with a dot; a key with an exact route is accepted
-- and found.
pub is_ok-lookup_route :
    (r : RouteRegistry) (key : RouteKey)
    → Inv r
    → is_ok (lookup_route r key) ≡ (
        if contains_key key r.routes
        then true
        else exists_with_wildcard r key && not (leading_dot key))
unfolding lookup_route exists_with_wildcard contains_key
is_ok-lookup_route r key v = elim (Option-cases (lookup key r.routes)) [
  | inl missing ↦ ground (arith, missing, fallback-exists r key v)
  | inr (t, found) ↦ ground (arith, found)
]
