-- ===== src/Control/Reverse.antt =====
-- Agents and reverse tunnels: `handle_agent_connection` and `handle_reverse_localup_request` of
-- crates/localup-control/src/handler.rs, and `AgentConnectionManager` of connection.rs there. The validator
-- of tokens is a parameter, and so is whether a message could be sent.
use localup.Base.{
  ℕ, Bool, Option, none, some, if◌then◌else◌, ◌==◌, nat_eq, list_eq, Map, lookup, remove, insert,
  Text, Result, ok, err, ◌>>=◌, ◌>>◌, ensure, ok_or,
}
use localup.Control.Agents.{RegisteredAgent, AgentRegistry, register_or_replace, find_by_address}
use localup.Control.Agents
use localup.Control.Admission.{JwtClaims}

pub record AgentConnection : Type 0 where
  pub agent_id : Text
  pub connection : ℕ

-- The registry of agents, if the relay has one, and the manager of their connections.
pub record AgentState : Type 0 where
  pub agent_registry : Option AgentRegistry
  pub agent_connections : Map Text AgentConnection

unfoldable pub register_connection : Map Text AgentConnection → Text → ℕ → Map Text AgentConnection
register_connection m agent_id connection =
    insert agent_id (record { agent_id = agent_id; connection = connection }) m

unfoldable pub unregister_connection : Map Text AgentConnection → Text → Map Text AgentConnection
unregister_connection m agent_id = remove agent_id m

abbrev pub connection_of : Option AgentConnection → Option ℕ
connection_of none = none
connection_of (some c) = some c.connection

unfoldable pub get_connection : Map Text AgentConnection → Text → Option ℕ
get_connection m agent_id = connection_of (lookup agent_id m)

-- Why a reverse tunnel is rejected
pub data ReverseReject : Type 0 where
  not_enabled connection_not_available : ReverseReject
  no_agent_available : Text → ReverseReject
  agent_id_mismatch : Text → Text → ReverseReject

-- The connection of the agent that an accepted reverse tunnel leads to.
unfoldable pub handle_reverse_localup_request : AgentState → Text → Text → Result ReverseReject ℕ
handle_reverse_localup_request s remote_address agent_id = do
  registry ← ok_or not_enabled s.agent_registry
  agent ← ok_or (no_agent_available remote_address) (find_by_address registry remote_address)
  ensure (agent.agent_id == agent_id) (agent_id_mismatch agent.agent_id agent_id)
  ok_or connection_not_available (get_connection s.agent_connections agent_id)

-- The message `AgentRegister`, with the handle of the connection if it is a QUIC connection, and whether the
-- answer could be sent.
pub record AgentRegister : Type 0 where
  pub agent : RegisteredAgent
  pub auth_token : Text
  pub quic : Option ℕ
  pub sent : Bool

pub data AgentReject : Type 0 where
  authentication_failed : Text → AgentReject
  agents_not_enabled answer_not_sent not_quic : AgentReject

abbrev pub check_token :
    Option (Text → Result Text JwtClaims) → Text → Result AgentReject (Unit {0})
check_token none token = ok tt
check_token (some validate) token = elim (validate token) [
  | ok claims ↦ ok tt
  | err e ↦ err (authentication_failed e)
]

abbrev pub with_agents : AgentState → AgentRegistry → AgentState
with_agents s registry = record {
  agent_registry = some registry;
  agent_connections = s.agent_connections;
}

abbrev pub stored :
    AgentState → AgentRegistry → Text → Option ℕ → AgentState × Result AgentReject (Unit {0})
stored s registry agent_id none =
    (with_agents s (Agents.unregister registry agent_id).0, err not_quic)
stored s registry agent_id (some connection) = (
  record {
    agent_registry = some registry;
    agent_connections = register_connection s.agent_connections agent_id connection;
  },
  ok tt,
)

-- The registration of an agent whose token was accepted.
unfoldable pub register_agent :
    AgentState → AgentRegister → Option AgentRegistry → AgentState × Result AgentReject (Unit {0})
register_agent s request none = (s, err agents_not_enabled)
register_agent s request (some agents) =
    let agent_id = request.agent.agent_id in
    let registry = (register_or_replace agents request.agent).0 in
    if request.sent
    then stored s registry agent_id request.quic
    else (with_agents s (Agents.unregister registry agent_id).0, err answer_not_sent)

-- handle_agent_connection up to the heartbeat
unfoldable pub connect_agent :
    Option (Text → Result Text JwtClaims)
    → AgentState
    → AgentRegister
    → AgentState × Result AgentReject (Unit {0})
connect_agent validator s request = elim (check_token validator request.auth_token) [
  | err e ↦ (s, err e)
  | ok _ ↦ register_agent s request s.agent_registry
]

abbrev pub without_agent : Text → Option AgentRegistry → Option AgentRegistry
without_agent agent_id none = none
without_agent agent_id (some registry) = some (Agents.unregister registry agent_id).0

-- The end of an agent connection
unfoldable pub disconnect_agent : AgentState → Text → AgentState
disconnect_agent s agent_id = record {
  agent_registry = without_agent agent_id s.agent_registry;
  agent_connections = unregister_connection s.agent_connections agent_id;
}
