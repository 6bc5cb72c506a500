-- ===== src/Control/Handler/Registering.antt =====
-- The handler and the well-formedness of the registry.
use localup.Base.{
  ◌≡◌, inl, inr, Bool, Option, List, [], ◌∷◌, Bool-cases, Option-cases, nat_eq, list_eq, Text,
  codes, ok, Result-cases,
}
use localup.Proto.IpFilter.{IpFilter}
use localup.Router.Wildcard.{is_wildcard_pattern, parse}
use localup.Router.Registry.{tls_sni, http_host, RouteRegistry, key_eq}
use localup.Router.Registry.Operations.{
  Inv, register-Inv, register_wildcard-Inv, unregister-Inv, unregister_wildcard-Inv,
}
use localup.Control.Handler.{
  Handler, RegisterError, host_of, check_domain, route_target, free_wildcard, free_host,
  register_wildcard_host, register_host, conflict_of, metadata_of, register_checked, register_web,
  register_pattern, register_patterns, unregister_host, unregister_web, unregister_pattern,
  unregister_patterns,
}
use localup.Control.Handler.Freeing.{free_host_lem, free_wildcard_lem}

free_host-Inv :
    (r freed : RouteRegistry) (id host : Text) (conflict : RegisterError)
    → Inv r
    → free_host r id host conflict ≡ ok freed
    → Inv freed
free_host-Inv r freed id host conflict v h = elim (free_host_lem r freed id host conflict h) [
  | inl (same, _) ↦ rw same v
  | inr (same, t, held, own) ↦ rw same (unregister-Inv r (http_host host) v)
]

free_wildcard-Inv :
    (r freed : RouteRegistry) (id host : Text)
    → Inv r
    → free_wildcard r id host ≡ ok freed
    → Inv freed
free_wildcard-Inv r freed id host v h = elim (free_wildcard_lem r freed id host h) [
  | inl (same, _) ↦ rw same v
  | inr (same, t, held, own) ↦ rw same (unregister_wildcard-Inv r host v)
]

register_host-Inv :
    (r : RouteRegistry) (id host : Text) (conflict : RegisterError) (metadata : Text)
    (filter : IpFilter)
    → Inv r
    → Inv (register_host r id host conflict metadata filter).0
unfolding register_host
register_host-Inv r id host conflict metadata filter v =
    elim (Result-cases (free_host r id host conflict)) [
      | inr (failure, e) ↦ rw (e, register_host) v
      | inl (freed, e) ↦
          rw (e, register_host)
            (register-Inv freed (http_host host) (route_target id metadata filter)
              (free_host-Inv r freed id host conflict v e))
    ]

register_wildcard_host-Inv :
    (r : RouteRegistry) (id host : Text) (filter : IpFilter)
    → Inv r
    → Inv (register_wildcard_host r id host filter).0
unfolding register_wildcard_host
register_wildcard_host-Inv r id host filter v = elim (Result-cases (parse host)) [
  | inr (failure, bad) ↦ rw (bad, register_wildcard_host) v
  | inl (w, good) ↦ elim (Result-cases (free_wildcard r id host)) [
    | inr (failure, e) ↦ rw (good, register_wildcard_host) (rw e v)
    | inl (freed, e) ↦
        rw (good, register_wildcard_host)
          (rw e (
            register_wildcard-Inv freed host (route_target id (codes "wildcard-domain") filter)
              (free_wildcard-Inv r freed id host v e)))
  ]
]

register_checked-Inv :
    (r : RouteRegistry) (id : Text) (sub : Option Text) (host : Text) (custom : Bool)
    (filter : IpFilter)
    → Inv r
    → Inv (register_checked r id sub host custom filter).0
unfolding register_checked
register_checked-Inv r id sub host custom filter v = elim (Bool-cases (is_wildcard_pattern host)) [
  | inl wild ↦ rw (wild, register_checked) (register_wildcard_host-Inv r id host filter v)
  | inr plain ↦
      rw (plain, register_checked)
        (register_host-Inv r id host (conflict_of custom sub host) (metadata_of custom) filter v)
]

pub register_web-Inv :
    (h : Handler) (r : RouteRegistry) (id : Text) (sub custom : Option Text) (filter : IpFilter)
    → Inv r
    → Inv (register_web h r id sub custom filter).0
unfolding register_web
register_web-Inv h r id sub custom filter v = elim (Option-cases (host_of h.domain sub custom)) [
  | inl e ↦ rw (e, register_web) v
  | inr ((host, is_custom), e) ↦ elim (Result-cases (check_domain h.db is_custom host)) [
    | inr (failure, f) ↦ rw (e, register_web) (rw f v)
    | inl (done, f) ↦
        rw (e, register_web) (rw f (register_checked-Inv r id sub host is_custom filter v))
  ]
]

register_pattern-Inv :
    (r : RouteRegistry) (id pattern : Text) (filter : IpFilter)
    → Inv r
    → Inv (register_pattern r id pattern filter).0
unfolding register_pattern
register_pattern-Inv r id pattern filter v =
    let target = route_target id (codes "via-tunnel") filter in
    elim (Bool-cases (is_wildcard_pattern pattern)) [
      | inl wild ↦ rw (wild, register_pattern) (register_wildcard-Inv r pattern target v)
      | inr plain ↦ rw (plain, register_pattern) (register-Inv r (tls_sni pattern) target v)
    ]

pub register_patterns-Inv :
    (r : RouteRegistry) (id : Text) (patterns : List Text) (filter : IpFilter)
    → Inv r
    → Inv (register_patterns r id patterns filter).0
unfolding register_patterns
register_patterns-Inv r id [] filter v = v
register_patterns-Inv r id (p ∷ ps) filter v =
    elim (Result-cases (register_pattern r id p filter).1) [
      | inr (failure, e) ↦ rw (e, register_patterns) (register_pattern-Inv r id p filter v)
      | inl (done, e) ↦
          rw (e, register_patterns)
            (register_patterns-Inv (register_pattern r id p filter).0 id ps filter
              (register_pattern-Inv r id p filter v))
    ]

pub unregister_web-Inv :
    (h : Handler) (r : RouteRegistry) (sub custom : Option Text)
    → Inv r
    → Inv (unregister_web h r sub custom)
unfolding unregister_web unregister_host
unregister_web-Inv h r sub custom v = elim (Option-cases (host_of h.domain sub custom)) [
  | inl e ↦ rw (e, unregister_web) v
  | inr ((host, is_custom), e) ↦ elim (Bool-cases (is_wildcard_pattern host)) [
    | inl wild ↦
        rw (e, unregister_web) (rw (wild, unregister_host) (unregister_wildcard-Inv r host v))
    | inr plain ↦
        rw (e, unregister_web) (rw (plain, unregister_host) (unregister-Inv r (http_host host) v))
  ]
]

pub unregister_patterns-Inv :
    (r : RouteRegistry) (patterns : List Text) → Inv r → Inv (unregister_patterns r patterns)
unfolding unregister_patterns unregister_pattern
unregister_patterns-Inv r [] v = v
unregister_patterns-Inv r (p ∷ ps) v = unregister_patterns-Inv (unregister_pattern r p) ps one
  where
    one : Inv (unregister_pattern r p)
    one = elim (Bool-cases (is_wildcard_pattern p)) [
      | inl wild ↦ rw (wild, unregister_pattern) (unregister_wildcard-Inv r p v)
      | inr plain ↦ rw (plain, unregister_pattern) (unregister-Inv r (tls_sni p) v)
    ]
