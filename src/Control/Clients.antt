-- ===== src/Control/Clients.antt =====
-- The connection of a client: `handle_client_connection` of crates/localup-control/src/handler.rs, up to
-- the heartbeat in `connect` and after it in `disconnect`. What the handler asks of third parties, which
-- are the domain provider, the grammar of addresses, the validator of tokens, SHA-256, the operating system
-- and the clock, are parameters; so is whether the message `Connected` could be sent.
pub mod Routes
pub mod Invariant
pub mod Capture
use localup.Base.{
  ℕ, Bool, Option, none, some, List, [], ◌∷◌, ◌++◌, if◌then◌else◌, Text, codes, Result, ok, err,
}
use localup.Proto.IpFilter.{IpAddr, IpFilter, IpFilterError, from_allowlist}
use localup.Proto.IpFilter
use localup.HttpAuth.{HttpAuthConfig}
use localup.Control.Endpoints.{Protocol, Endpoint, DomainProvider, Ports, build_endpoints, decimal}
use localup.Control.Admission.{JwtClaims, AuthError, Database, validate_auth_token}
use localup.Control.Handler.{Handler, Shared, RegisterError, register_route, unregister_route}
use localup.Control.Connections.{Connections, register_with_auth_and_token, unregister}

-- The message `Connect`, and the handle of the connection if it is a QUIC connection.
pub record Connect : Type 0 where
  pub localup_id : Text
  pub auth_token : Text
  pub protocols : List Protocol
  pub ip_allowlist : List Text
  pub http_auth : HttpAuthConfig
  pub quic : Option ℕ

pub data ClientError : Type 0 where
  authentication_failed : AuthError → ClientError
  registration_failed : RegisterError → ClientError
  send_failed : ClientError

-- The shared objects, the manager of connections, and the state of the domain provider.
pub record Relay (S : Type 0) : Type 0 where
  pub shared : Shared
  pub connections : Connections
  pub provider_state : S

unfoldable pub filter_of : Result IpFilterError IpFilter → IpFilter
filter_of (ok filter) = filter
filter_of (err e) = IpFilter.new

-- An endpoint with the port that its registration gave, if any.
unfoldable pub with_port : Text → Endpoint → Option ℕ → Endpoint
with_port domain endpoint none = endpoint
with_port domain endpoint (some port) = record {
  protocol = endpoint.protocol;
  public_url = codes "tcp://" ++ domain ++ (b':' ∷ decimal port);
  port = some port;
}

abbrev pub cons_ok :
    Endpoint → Result RegisterError (List Endpoint) → Result RegisterError (List Endpoint)
cons_ok e (ok es) = ok (e ∷ es)
cons_ok e (err f) = err f

-- Registration in the manager of connections, for QUIC connections only.
abbrev pub register_connection : Connections → Connect → List Endpoint → Option ℕ → Connections
register_connection m request endpoints none = m
register_connection m request endpoints (some connection) =
    register_with_auth_and_token m request.localup_id endpoints connection request.http_auth
      (some request.auth_token)

-- A panic ends the loop and the task.
unfoldable pub unregister_endpoints : ℕ → Handler → Shared → Text → List Endpoint → Shared
unregister_endpoints now h s id [] = s
unregister_endpoints now h s id (e ∷ endpoints) =
    let (s', result) = unregister_route now h s id e.protocol in
    elim result [ err panic ↦ s' | ok _ ↦ unregister_endpoints now h s' id endpoints ]

unfoldable pub disconnect : {S : Type 0} → ℕ → Handler → Relay S → Text → List Endpoint → Relay S
disconnect now h r id endpoints = record {
  shared = unregister_endpoints now h r.shared id endpoints;
  connections = unregister r.connections id;
  provider_state = r.provider_state;
}

module _ (is_port_available : ℕ → ℕ → Bool) (hash : Text → ℕ) where
  -- The loop over the endpoints; the first error ends it.
  unfoldable pub register_endpoints :
      Handler
      → Shared
      → Text
      → IpFilter
      → List Endpoint
      → Shared × Result RegisterError (List Endpoint)
  register_endpoints h s id filter [] = (s, ok [])
  register_endpoints h s id filter (e ∷ endpoints) =
      let (s', result) = register_route is_port_available hash h s id e.protocol filter in
      elim result [
        | err f ↦ (s', err f)
        | ok port ↦
            let (s'', rest) = register_endpoints h s' id filter endpoints in
            (s'', cons_ok (with_port h.domain e port) rest)
      ]

-- The answers of third parties during one connection.
pub record Environment (S : Type 0) : Type 0 where
  pub is_port_available : ℕ → ℕ → Bool
  pub hash : Text → ℕ
  pub subdomain_hash : ℕ
  pub from_str : Text → Option IpAddr
  pub sha256 : Text → Text
  pub now : ℕ
  pub sent : Bool

module _ {S : Type 0} where
  -- `connected` with the endpoints, after their registration
  abbrev pub connected :
      Environment S
      → Relay S
      → Connect
      → S
      → Shared × Result RegisterError (List Endpoint)
      → Relay S × Result ClientError (List Endpoint)
  connected env r request state (s, err e) = (
    record { shared = s; connections = r.connections; provider_state = state },
    err (registration_failed e),
  )
  connected env r request state (s, ok endpoints) = (
    record {
      shared = s;
      connections = register_connection r.connections request endpoints request.quic;
      provider_state = state;
    },
    (if env.sent then ok endpoints else err send_failed),
  )

  -- The part of the connection after its authentication.
  unfoldable pub admit :
      Environment S
      → Handler
      → Option (DomainProvider S)
      → Ports
      → Relay S
      → Connect
      → Relay S × Result ClientError (List Endpoint)
  admit env h provider ports r request =
      let id = request.localup_id in
      let (endpoints, state) =
        build_endpoints provider ports h.domain id env.subdomain_hash r.provider_state
          request.protocols in
      let filter = filter_of (from_allowlist env.from_str request.ip_allowlist) in
      connected env r request state
        (register_endpoints env.is_port_available env.hash h r.shared id filter endpoints)

  unfoldable pub connect :
      Environment S
      → Handler
      → Option (DomainProvider S)
      → Option (Text → Result Text JwtClaims)
      → Ports
      → Relay S
      → Connect
      → Relay S × Result ClientError (List Endpoint)
  connect env h provider validator ports r request =
      elim (validate_auth_token env.sha256 env.now validator h.db request.auth_token) [
        | err e ↦ (r, err (authentication_failed e))
        | ok user_id ↦ admit env h provider ports r request
      ]
