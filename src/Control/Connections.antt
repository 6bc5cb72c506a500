-- ===== src/Control/Connections.antt =====
-- The connections of tunnels: `TunnelConnectionManager` and `AgentConnectionManager` of
-- crates/localup-control/src/connection.rs. A connection and a callback are known by their numbers. Each
-- operation holds the lock.
use localup.Base.{ℕ, Option, none, some, List, nat_eq, list_eq, Map, lookup, remove, insert, Text}
use localup.HttpAuth.{HttpAuthConfig, no_config, Provider, from_config}
use localup.Control.Endpoints.{Endpoint}

pub record TunnelConnection : Type 0 where
  pub localup_id : Text
  pub endpoints : List Endpoint
  pub connection : ℕ
  pub tcp_data_callback : Option ℕ
  pub http_auth : HttpAuthConfig
  pub auth_token : Option Text

abbrev pub Connections : Type 0
Connections = Map Text TunnelConnection

unfoldable pub register_with_auth_and_token :
    Connections → Text → List Endpoint → ℕ → HttpAuthConfig → Option Text → Connections
register_with_auth_and_token m localup_id endpoints connection http_auth auth_token =
    insert localup_id
      (record {
        localup_id = localup_id;
        endpoints = endpoints;
        connection = connection;
        tcp_data_callback = none;
        http_auth = http_auth;
        auth_token = auth_token;
      })
      m

unfoldable pub register_with_auth :
    Connections → Text → List Endpoint → ℕ → HttpAuthConfig → Connections
register_with_auth m localup_id endpoints connection http_auth =
    register_with_auth_and_token m localup_id endpoints connection http_auth none

unfoldable pub register : Connections → Text → List Endpoint → ℕ → Connections
register m localup_id endpoints connection =
    register_with_auth_and_token m localup_id endpoints connection no_config none

abbrev pub with_callback : TunnelConnection → ℕ → TunnelConnection
with_callback c callback = record c { tcp_data_callback = some callback }

-- `get_mut`, and the write through it
unfoldable pub register_tcp_callback : Connections → Text → ℕ → Connections
register_tcp_callback m localup_id callback = elim (lookup localup_id m) [
  | none ↦ m
  | some c ↦ insert localup_id (with_callback c callback) m
]

unfoldable pub unregister : Connections → Text → Connections
unregister m localup_id = remove localup_id m

abbrev pub map_option : {A B : Type 0} → (A → B) → Option A → Option B
map_option f none = none
map_option f (some a) = some (f a)

abbrev pub and_then : {A B : Type 0} → (A → Option B) → Option A → Option B
and_then f none = none
and_then f (some a) = f a

unfoldable pub get_tcp_callback : Connections → Text → Option ℕ
get_tcp_callback m localup_id = and_then (λ c. c.tcp_data_callback) (lookup localup_id m)

unfoldable pub get : Connections → Text → Option ℕ
get m localup_id = map_option (λ c. c.connection) (lookup localup_id m)

unfoldable pub get_endpoints : Connections → Text → Option (List Endpoint)
get_endpoints m localup_id = map_option (λ c. c.endpoints) (lookup localup_id m)

unfoldable pub get_http_authenticator : Connections → Text → Option Provider
get_http_authenticator m localup_id =
    map_option (λ c. from_config c.http_auth) (lookup localup_id m)

unfoldable pub get_auth_token : Connections → Text → Option Text
get_auth_token m localup_id = and_then (λ c. c.auth_token) (lookup localup_id m)
