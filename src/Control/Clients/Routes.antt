-- ===== src/Control/Clients/Routes.antt =====
-- The connection of a client and the routes of the registry.
use localup.Base.{
  ℕ, ◌≡◌, refl, inl, inr, Bool, Option, List, [], ◌∷◌, nat_eq, list_eq, Text, Result, ok, err,
  Result-cases,
}
use localup.Proto.IpFilter.{IpFilter}
use localup.Control.Endpoints.{Endpoint, DomainProvider, Ports}
use localup.Control.Admission.{JwtClaims, AuthError, validate_auth_token}
use localup.Control.Handler.{Handler, Shared, RegisterError, register_route}
use localup.Control.Handler.Ownership.{Keeps, Keeps-all, Keeps-trans, register_route-Keeps}
use localup.Control.Clients.{
  Connect, authentication_failed, Relay, Environment, register_endpoints, connected, admit, connect,
}

module _ (is_port_available : ℕ → ℕ → Bool) (hash : Text → ℕ) where
  register_endpoints-Keeps :
      (h : Handler) (s : Shared) (id : Text) (filter : IpFilter) (endpoints : List Endpoint)
      → Keeps id s.route_registry
          (register_endpoints is_port_available hash h s id filter endpoints).0.route_registry
  unfolding register_endpoints
  register_endpoints-Keeps h s id filter [] = Keeps-all id s.route_registry
  register_endpoints-Keeps h s id filter (e ∷ endpoints) =
      let outcome = register_route is_port_available hash h s id e.protocol filter in
      let first = register_route-Keeps is_port_available hash h s id e.protocol filter in
      elim (Result-cases outcome.1) [
        | inr (f, failed) ↦ rw (failed, register_endpoints) first
        | inl (port, done) ↦
            rw (done, register_endpoints)
              (Keeps-trans id s.route_registry outcome.0.route_registry _ first
                (register_endpoints-Keeps h outcome.0 id filter endpoints))
      ]

module _ {S : Type 0} (env : Environment S) where
  pub connected_lem :
      (r : Relay S) (request : Connect) (state : S)
      (outcome : Shared × Result RegisterError (List Endpoint))
      → (connected env r request state outcome).0.shared ≡ outcome.0
  connected_lem r request state (s, ok endpoints) = refl
  connected_lem r request state (s, err e) = refl

  -- The connection of a client never removes or changes a route of another tunnel, whatever it asks for,
  -- and whether it is accepted or rejected.
  pub connect-Keeps :
      (h : Handler) (provider : Option (DomainProvider S))
      (validator : Option (Text → Result Text JwtClaims)) (ports : Ports) (r : Relay S)
      (request : Connect)
      → Keeps request.localup_id r.shared.route_registry
          (connect env h provider validator ports r request).0.shared.route_registry
  unfolding connect admit
  connect-Keeps h provider validator ports r request =
      elim (Result-cases
        (validate_auth_token env.sha256 env.now validator h.db request.auth_token)) [
          | inr (e, failed) ↦
              rw (failed, connect) (Keeps-all request.localup_id r.shared.route_registry)
          | inl (user_id, good) ↦
              rw (good, connect)
                (rw (connected_lem r request _ _) (
                  register_endpoints-Keeps env.is_port_available env.hash h r.shared
                    request.localup_id _ _))
        ]

  -- A connection whose authentication fails changes nothing.
  pub connect-rejected :
      (h : Handler) (provider : Option (DomainProvider S))
      (validator : Option (Text → Result Text JwtClaims)) (ports : Ports) (r : Relay S)
      (request : Connect) (e : AuthError)
      → validate_auth_token env.sha256 env.now validator h.db request.auth_token ≡ err e
      → connect env h provider validator ports r request ≡ (r, err (authentication_failed e))
  unfolding connect
  connect-rejected h provider validator ports r request e failed = rw (failed, connect) refl
