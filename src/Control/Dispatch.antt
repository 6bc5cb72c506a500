-- ===== src/Control/Dispatch.antt =====
-- The first message of a connection: `handle_connection` of crates/localup-control/src/handler.rs.
pub mod Unchecked
use localup.Base.{ℕ, Option, List, Text, Result}
use localup.Control.Endpoints.{Endpoint, DomainProvider, Ports}
use localup.Control.Admission.{JwtClaims}
use localup.Control.Handler.{Handler}
use localup.Control.Clients.{Connect, ClientError, Relay, Environment, connect}
use localup.Control.Reverse.{
  AgentState, AgentRegister, AgentReject, ReverseReject, connect_agent,
  handle_reverse_localup_request,
}

-- The first messages that the handler knows; a reverse tunnel names the tunnel, the address and the agent.
pub data FirstMessage : Type 0 where
  agent_register : AgentRegister → FirstMessage
  connect_message : Connect → FirstMessage
  reverse_tunnel_request : Text → Text → Text → FirstMessage
  another_message : FirstMessage

pub data Answer : Type 0 where
  agent_answer : Result AgentReject (Unit {0}) → Answer
  client_answer : Result ClientError (List Endpoint) → Answer
  reverse_answer : Result ReverseReject ℕ → Answer
  invalid_first_message : Answer

pub record Server (S : Type 0) : Type 0 where
  pub relay : Relay S
  pub agents : AgentState

module _ {S : Type 0} where
  abbrev pub client_answered :
      AgentState → Relay S × Result ClientError (List Endpoint) → Server S × Answer
  client_answered agents (relay, result) =
      (record { relay = relay; agents = agents }, client_answer result)

  abbrev pub agent_answered :
      Relay S → AgentState × Result AgentReject (Unit {0}) → Server S × Answer
  agent_answered relay (agents, result) =
      (record { relay = relay; agents = agents }, agent_answer result)

  unfoldable pub handle_connection :
      Environment S
      → Handler
      → Option (DomainProvider S)
      → Option (Text → Result Text JwtClaims)
      → Ports
      → Server S
      → FirstMessage
      → Server S × Answer
  handle_connection env h provider validator ports s (agent_register request) =
      agent_answered s.relay (connect_agent validator s.agents request)
  handle_connection env h provider validator ports s (connect_message request) =
      client_answered s.agents (connect env h provider validator ports s.relay request)
  handle_connection env h provider validator ports s (reverse_tunnel_request id address agent_id) =
      (s, reverse_answer (handle_reverse_localup_request s.agents address agent_id))
  handle_connection env h provider validator ports s another_message = (s, invalid_first_message)
