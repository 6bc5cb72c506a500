-- ===== src/Control/Agents.antt =====
-- The agents of reverse tunnels: crates/localup-control/src/agent_registry.rs. Each operation holds the
-- lock of the map; the order of the list is the order in which the map is iterated over.
pub mod Finding
use localup.Base.{
  ℕ, Bool, true, false, Option, none, some, [], ◌∷◌, if◌then◌else◌, length, ◌==◌, nat_eq, list_eq,
  Map, lookup, remove, insert, contains_key, Text,
}

-- crates/localup-proto/src/messages.rs
pub record AgentMetadata : Type 0 where
  pub hostname : Text
  pub platform : Text
  pub version : Text
  pub location : Option Text

-- `connected_at` is a number of seconds.
pub record RegisteredAgent : Type 0 where
  pub agent_id : Text
  pub target_address : Text
  pub metadata : AgentMetadata
  pub connected_at : ℕ

abbrev pub AgentRegistry : Type 0
AgentRegistry = Map Text RegisteredAgent

unfoldable pub new : AgentRegistry
new = []

unfoldable pub register_or_replace :
    AgentRegistry → RegisteredAgent → AgentRegistry × Option RegisteredAgent
register_or_replace agents agent =
    (insert agent.agent_id agent agents, lookup agent.agent_id agents)

-- `true` says that the agent was registered, `false` that its identifier was.
unfoldable pub register : AgentRegistry → RegisteredAgent → AgentRegistry × Bool
register agents agent =
    if contains_key agent.agent_id agents
    then (agents, false)
    else (insert agent.agent_id agent agents, true)

unfoldable pub unregister : AgentRegistry → Text → AgentRegistry × Option RegisteredAgent
unregister agents agent_id = (remove agent_id agents, lookup agent_id agents)

unfoldable pub get : AgentRegistry → Text → Option RegisteredAgent
get agents agent_id = lookup agent_id agents

unfoldable pub find_by_address : AgentRegistry → Text → Option RegisteredAgent
find_by_address [] target_address = none
find_by_address ((id, agent) ∷ agents) target_address =
    let rest = find_by_address agents target_address in
    if agent.target_address == target_address then some agent else rest

unfoldable pub count : AgentRegistry → ℕ
count agents = length agents
