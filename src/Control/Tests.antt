-- ===== src/Control/Tests.antt =====
-- The agent registry and the task tracker on a few calls.
mod Relay
mod Routes
mod Tunnels
mod Loops
use localup.Base.{
  ◌≡◌, refl, true, none, some, List, [], ◌∷◌, is_some, nat_eq, list_eq, lookup, remove, insert,
  contains_key, Text, codes,
}
use localup.Control.Agents.{
  RegisteredAgent, new, register_or_replace, register, get, find_by_address,
}
use localup.Control.Tasks
use localup.Control.Tasks.{TaskTracker}
use localup.Control.Tasks.Tracking
use localup.Control.Tasks.Tracking.{IsTracked, register-run}
use localup.Control.Agents.Finding.{Call, registers, replaces, run, step, find_by_address-run}

abbrev database : RegisteredAgent
database = record {
  agent_id = codes "agent-1";
  target_address = codes "10.0.0.5:5432";
  metadata = record {
    hostname = codes "db";
    platform = codes "linux";
    version = codes "1.0";
    location = none;
  };
  connected_at = 100;
}

abbrev moved : RegisteredAgent
moved = record database { target_address = codes "10.0.0.6:5432"; connected_at = 200 }

abbrev calls : List Call
calls = registers database ∷ replaces moved ∷ []

-- The agent that was replaced is not found under its old address.
replaced :
    (find_by_address (run new calls) (codes "10.0.0.5:5432") ≡ none)
    × (find_by_address (run new calls) (codes "10.0.0.6:5432") ≡ some moved)
unfolding find_by_address run step new register register_or_replace contains_key lookup insert
    remove
replaced = (refl, refl)

find_by_address-run_example :
    ((agent : RegisteredAgent)
      → find_by_address (run new calls) (codes "10.0.0.6:5432") ≡ some agent
      → (agent.target_address ≡ codes "10.0.0.6:5432")
        × (get (run new calls) agent.agent_id ≡ some agent))
    × ((id : Text) (agent : RegisteredAgent)
        → get (run new calls) id ≡ some agent
        → agent.target_address ≡ codes "10.0.0.6:5432"
        → is_some (find_by_address (run new calls) (codes "10.0.0.6:5432")) ≡ true)
find_by_address-run_example = find_by_address-run calls (codes "10.0.0.6:5432")

register-run_example :
    IsTracked
      (Tracking.run
        (Tasks.register Tasks.new (codes "tunnel") 7)
        (Tracking.registers (codes "tunnel") 8 ∷ []))
      7
    × (lookup
          (codes "tunnel")
          (Tasks.unregister
            (Tracking.run
              (Tasks.register Tasks.new (codes "tunnel") 7)
              (Tracking.registers (codes "tunnel") 8 ∷ []))
            (codes "tunnel")).tasks
        ≡ none)
register-run_example =
    register-run Tasks.new (codes "tunnel") 7 (Tracking.registers (codes "tunnel") 8 ∷ [])
