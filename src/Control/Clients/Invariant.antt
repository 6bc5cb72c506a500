-- ===== src/Control/Clients/Invariant.antt =====
-- The state of the relay over the connections and disconnections of several clients.
use localup.Base.{
  ℕ, inl, inr, Bool, Option, List, [], ◌∷◌, nat_eq, list_eq, Text, Result, ok, err, Result-cases,
}
use localup.Proto.IpFilter.{IpFilter}
use localup.Control.Endpoints.{Endpoint, DomainProvider, Ports}
use localup.Control.Admission.{JwtClaims, validate_auth_token}
use localup.Control.Handler.{Handler, Shared, RegisterError, register_route, unregister_route}
use localup.Control.Handler.Wellformed.{
  IsWellFormed, register_route-IsWellFormed, unregister_route-IsWellFormed,
}
use localup.Control.Clients.{
  Connect, Relay, Environment, unregister_endpoints, disconnect, register_endpoints, connected,
  admit, connect,
}

register_endpoints-IsWellFormed :
    (is_port_available : ℕ → ℕ → Bool) (hash : Text → ℕ) (h : Handler) (s : Shared) (id : Text)
    (filter : IpFilter) (endpoints : List Endpoint)
    → IsWellFormed s
    → IsWellFormed (register_endpoints is_port_available hash h s id filter endpoints).0
unfolding register_endpoints
register_endpoints-IsWellFormed os hash h s id filter [] w = w
register_endpoints-IsWellFormed os hash h s id filter (e ∷ endpoints) w =
    let outcome = register_route os hash h s id e.protocol filter in
    let first = register_route-IsWellFormed os hash h s id e.protocol filter w in
    elim (Result-cases outcome.1) [
      | inr (f, failed) ↦ rw (failed, register_endpoints) first
      | inl (port, done) ↦
          rw (done, register_endpoints)
            (register_endpoints-IsWellFormed os hash h outcome.0 id filter endpoints first)
    ]

unregister_endpoints-IsWellFormed :
    (now : ℕ) (h : Handler) (s : Shared) (id : Text) (endpoints : List Endpoint)
    → IsWellFormed s
    → IsWellFormed (unregister_endpoints now h s id endpoints)
unfolding unregister_endpoints
unregister_endpoints-IsWellFormed now h s id [] w = w
unregister_endpoints-IsWellFormed now h s id (e ∷ endpoints) w =
    let outcome = unregister_route now h s id e.protocol in
    let first = unregister_route-IsWellFormed now h s id e.protocol w in
    elim (Result-cases outcome.1) [
      | inr (panic, failed) ↦ rw (failed, unregister_endpoints) first
      | inl (done, good) ↦
          rw (good, unregister_endpoints)
            (unregister_endpoints-IsWellFormed now h outcome.0 id endpoints first)
    ]

-- A client connects, in some environment, or the connection with the given endpoints ends.
pub data Event (S : Type 0) : Type 0 where
  connects : Environment S → Connect → Event S
  disconnects : ℕ → Text → List Endpoint → Event S

module _ {S : Type 0} (h : Handler) (provider : Option (DomainProvider S))
    (validator : Option (Text → Result Text JwtClaims)) (ports : Ports) where
  pub step : Relay S → Event S → Relay S
  step r (connects env request) = (connect env h provider validator ports r request).0
  step r (disconnects now id endpoints) = disconnect now h r id endpoints

  pub run : Relay S → List (Event S) → Relay S
  unfolding step
  run r [] = r
  run r (e ∷ events) = run (step r e) events

  connected-IsWellFormed :
      (env : Environment S) (r : Relay S) (request : Connect) (state : S)
      (outcome : Shared × Result RegisterError (List Endpoint))
      → IsWellFormed outcome.0
      → IsWellFormed (connected env r request state outcome).0.shared
  connected-IsWellFormed env r request state (s, ok endpoints) w = w
  connected-IsWellFormed env r request state (s, err e) w = w

  connect-IsWellFormed :
      (env : Environment S) (r : Relay S) (request : Connect)
      → IsWellFormed r.shared
      → IsWellFormed (connect env h provider validator ports r request).0.shared
  unfolding connect admit
  connect-IsWellFormed env r request w =
      elim (Result-cases
        (validate_auth_token env.sha256 env.now validator h.db request.auth_token)) [
          | inr (e, failed) ↦ rw (failed, connect) w
          | inl (user_id, good) ↦
              rw (good, connect)
                (connected-IsWellFormed env r request _ _ (
                  register_endpoints-IsWellFormed env.is_port_available env.hash h r.shared
                    request.localup_id _ _ w))
        ]

  step-IsWellFormed :
      (r : Relay S) (e : Event S) → IsWellFormed r.shared → IsWellFormed (step r e).shared
  unfolding step disconnect
  step-IsWellFormed r (disconnects now id endpoints) w =
      unregister_endpoints-IsWellFormed now h r.shared id endpoints w
  step-IsWellFormed r (connects env request) w = connect-IsWellFormed env r request w

  -- Whatever clients connect and disconnect, in any order and with any answers of the environment, and
  -- whether or not their registrations succeed, the registry stays well formed (no key twice, every wildcard
  -- pattern valid) and the port allocator stays consistent, if they were before.
  pub run-IsWellFormed :
      (r : Relay S) (events : List (Event S))
      → IsWellFormed r.shared
      → IsWellFormed (run r events).shared
  unfolding run
  run-IsWellFormed r [] w = w
  run-IsWellFormed r (e ∷ events) w = run-IsWellFormed (step r e) events (step-IsWellFormed r e w)
