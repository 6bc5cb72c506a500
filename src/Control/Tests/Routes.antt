-- ===== src/Control/Tests/Routes.antt =====
-- The client's connection, and the routes of its hosts and patterns.
use localup.Base.{
  ◌≡◌, refl, true, false, none, some, List, [], ◌∷◌, ◌++◌, All, nat_eq, list_eq, lookup, remove,
  insert, contains_key, Text, codes, starts_with, ends_with, contains_text, contains_byte,
  split_parts, ok, err,
}
use localup.Router.Wildcard.{WildcardPattern, parse, matches}
use localup.Router.Wildcard
use localup.Router.Registry.{
  RouteKey, http_host, tls_sni, RouteTarget, RouteRegistry, lookup_route, key_eq,
}
use localup.Router.Registry
use localup.ExitNode.Ports.Invariant.{new-IsConsistent}
use localup.Control.Endpoints
use localup.Control.Endpoints.{Protocol, http, tcp, tls, DomainProvider, Ports, generate_subdomain}
use localup.Control.Handler.{
  Handler, Shared, RegisterError, Outcome, host_of, register_web, register_patterns,
  register_pattern, register_route, register_tcp, unregister_web, unregister_route, route_target,
}
use localup.Control.Handler
use localup.Control.Handler.Ownership.{Keeps}
use localup.Control.Handler.Claiming.{IsGuarded, may_register, registered, register_web-IsGuarded}
use localup.Control.Handler.Cleanup.{
  is_vacant, IsWithout, unregister_web-register_web, unregister_web-IsWithout,
}
use localup.Control.Handler.Patterns.{LeadsTo, register_patterns-LeadsTo, register_patterns-stops}
use localup.Control.Handler.Wellformed.{IsWellFormed}
use localup.Control.Clients.{connect}
use localup.Control.Clients.Routes.{connect-Keeps}
use localup.Control.Clients.Invariant.{Event, connects, disconnects, run, run-IsWellFormed}
use localup.Control.Tests.Relay.{
  any_filter, relay_handler, occupied, shared, relay, environment, server_ports, request,
}

connect-Keeps_example :
    Keeps
      (codes "mine")
      occupied
      (connect environment relay_handler none none server_ports relay
        request).0.shared.route_registry
connect-Keeps_example = connect-Keeps environment relay_handler none none server_ports relay request

register_web-IsGuarded_example :
    IsGuarded
      (may_register relay_handler occupied
        (codes "mine")
        (host_of (codes "relay.dev") (some (codes "app")) none))
      (registered occupied
        (codes "mine")
        any_filter
        (host_of (codes "relay.dev") (some (codes "app")) none))
      occupied
      (register_web relay_handler occupied (codes "mine") (some (codes "app")) none any_filter)
register_web-IsGuarded_example =
    register_web-IsGuarded relay_handler occupied (codes "mine") (some (codes "app")) none
      any_filter

shared-IsWellFormed : IsWellFormed shared
unfolding lookup
shared-IsWellFormed = record {
  registry_inv = record { routes_distinct = (refl, tt); wildcards_distinct = tt; accepted = tt };
  ports_consistent = new-IsConsistent 9000 9010 300;
}

abbrev events : List (Event (Unit {0}))
events = connects environment request ∷ disconnects 200 (codes "mine") [] ∷ []

run-IsWellFormed_example :
    IsWellFormed (run relay_handler none none server_ports relay events).shared
run-IsWellFormed_example =
    run-IsWellFormed relay_handler none none server_ports relay events shared-IsWellFormed

blog_host :
    host_of (codes "relay.dev") (some (codes "blog")) none ≡ some (codes "blog.relay.dev", false)
unfolding host_of Endpoints.host_name
blog_host = refl

app_host :
    host_of (codes "relay.dev") (some (codes "app")) none ≡ some (codes "app.relay.dev", false)
unfolding host_of Endpoints.host_name
app_host = refl

blog_vacant : is_vacant occupied (codes "blog.relay.dev") ≡ true
unfolding lookup Wildcard.is_wildcard_pattern starts_with
blog_vacant = refl

unregister_web-register_web_example :
    unregister_web relay_handler
      (register_web relay_handler occupied (codes "mine") (some (codes "blog")) none any_filter).0
      (some (codes "blog"))
      none
    ≡ occupied
unregister_web-register_web_example =
    unregister_web-register_web relay_handler occupied (codes "mine") (some (codes "blog")) none
      any_filter (codes "blog.relay.dev") false blog_host blog_vacant

-- The route of the other tunnel is the one that is removed.
unregister_web-IsWithout_example :
    IsWithout occupied
      (codes "app.relay.dev")
      (unregister_web relay_handler occupied (some (codes "app")) none)
unregister_web-IsWithout_example =
    unregister_web-IsWithout relay_handler occupied (some (codes "app")) none
      (codes "app.relay.dev") false app_host

abbrev patterns : List Text
patterns = codes "db.example.com" ∷ codes "*.example.org" ∷ []

patterns_ok :
    register_patterns occupied (codes "mine") patterns any_filter
    ≡ ((register_patterns occupied (codes "mine") patterns any_filter).0, ok tt)
unfolding register_patterns register_pattern Wildcard.is_wildcard_pattern starts_with
    Registry.register Registry.register_wildcard parse contains_key lookup insert remove
    contains_text ends_with contains_byte split_parts
patterns_ok = refl

register_patterns-LeadsTo_example :
    All
      (LeadsTo
        (codes "mine")
        any_filter
        (register_patterns occupied (codes "mine") patterns any_filter).0)
      patterns
register_patterns-LeadsTo_example =
    register_patterns-LeadsTo occupied
      (register_patterns occupied (codes "mine") patterns any_filter).0 (codes "mine") patterns
      any_filter patterns_ok

abbrev repeated : List Text
repeated = codes "db.example.com" ∷ codes "db.example.com" ∷ []

abbrev exists_error : RegisterError
exists_error =
    Handler.route_error (Registry.route_already_exists (tls_sni (codes "db.example.com")))

repeated_fails :
    register_patterns occupied (codes "mine") repeated any_filter
    ≡ ((register_patterns occupied (codes "mine") repeated any_filter).0, err exists_error)
unfolding register_patterns register_pattern Wildcard.is_wildcard_pattern starts_with
    Registry.register contains_key lookup insert remove
repeated_fails = refl

register_patterns-stops_example :
    (before : List Text) × (p : Text) × (after : List Text) × (repeated ≡ before ++ (p ∷ after))
    × (register_patterns occupied (codes "mine") before any_filter
        ≡ ((register_patterns occupied (codes "mine") repeated any_filter).0, ok tt))
    × (register_pattern
          (register_patterns occupied (codes "mine") repeated any_filter).0
          (codes "mine")
          p
          any_filter
        ≡ ((register_patterns occupied (codes "mine") repeated any_filter).0, err exists_error))
register_patterns-stops_example =
    register_patterns-stops occupied
      (register_patterns occupied (codes "mine") repeated any_filter).0 (codes "mine") repeated
      any_filter exists_error repeated_fails
