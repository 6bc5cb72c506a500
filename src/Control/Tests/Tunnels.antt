-- ===== src/Control/Tests/Tunnels.antt =====
-- The client's TCP tunnel, its subdomain `*`, and a reverse tunnel.
use localup.Base.{
  ℕ, ◌+◌, ◌≡◌, refl, ◌↔◌, true, none, some, [], ◌∷◌, Any, nat_eq, list_eq, lookup, Text, codes,
  starts_with, ends_with, contains_text, contains_byte, split_parts, ok,
}
use localup.Proto.IpFilter.{from_allowlist}
use localup.Router.Wildcard.{parse, matches}
use localup.Router.Registry.{http_host, lookup_route, key_eq}
use localup.ExitNode.Ports.{PortAllocator, reserved, allocation, with_reservation_ttl, ports_from}
use localup.ExitNode.Ports
use localup.ExitNode.Ports.Invariant.{new-IsConsistent}
use localup.Control.Endpoints.{http, tcp}
use localup.Control.Handler.{Shared, register_route, register_tcp, unregister_route, route_target}
use localup.Control.Handler.Tcp.{IsServed, register_route-IsServed, unregister_route-IsServed}
use localup.Control.Handler.Capture.{all_subdomains}
use localup.Control.Clients.{Connect, connect, filter_of}
use localup.Control.Clients.Capture.{connect-captures}
use localup.Control.Admission.{validate_auth_token}
use localup.Control.Agents.{RegisteredAgent}
use localup.Control.Dispatch.{Server, reverse_answer, reverse_tunnel_request, handle_connection}
use localup.Control.Dispatch.Unchecked.{IsReachable, handle_connection-reverse_iff}
use localup.Control.Tests.Relay.{
  any_filter, relay_handler, occupied, ports, shared, relay, all_available, zero_hash, environment,
  server_ports, request,
}

abbrev spawner : Text → ℕ → ℕ
spawner id port = port + 1

port_given :
    (register_route all_available zero_hash relay_handler shared
      (codes "mine")
      (tcp 0)
      any_filter).1
    ≡ ok (some 9000)
unfolding register_route register_tcp Ports.allocate lookup with_reservation_ttl Ports.hash_to_port
    Ports.range_size Ports.search_port Ports.elem ports_from
port_given = refl

register_route-IsServed_example :
    IsServed spawner
      (codes "mine")
      9000
      (register_route all_available zero_hash relay_handler shared
        (codes "mine")
        (tcp 0)
        any_filter).0
register_route-IsServed_example =
    register_route-IsServed all_available zero_hash relay_handler shared (codes "mine") 0 9000
      any_filter ports spawner refl (new-IsConsistent 9000 9010 300) refl port_given

star_pattern :
    parse (all_subdomains (codes "relay.dev"))
    ≡ ok (record { pattern = codes "*.relay.dev"; base_domain = codes "relay.dev" })
unfolding parse starts_with ends_with contains_text contains_byte split_parts
star_pattern = refl

star_matches :
    matches
      (record { pattern = codes "*.relay.dev"; base_domain = codes "relay.dev" })
      (codes "shop.relay.dev")
    ≡ true
unfolding matches ends_with contains_byte
star_matches = refl

no_shop : lookup (http_host (codes "shop.relay.dev")) occupied.routes ≡ none
unfolding lookup
no_shop = refl

no_star : lookup (all_subdomains (codes "relay.dev")) occupied.wildcard_routes ≡ none
unfolding lookup
no_star = refl

abbrev star_request : Connect
star_request = record request { protocols = http (some (codes "*")) none ∷ [] }

token_valid :
    validate_auth_token environment.sha256 environment.now none relay_handler.db
      star_request.auth_token
    ≡ ok (codes "anonymous")
unfolding validate_auth_token
token_valid = refl

connect-captures_example :
    lookup_route
      (connect environment relay_handler none none server_ports relay
        star_request).0.shared.route_registry
      (http_host (codes "shop.relay.dev"))
    ≡ ok (
        route_target
          (codes "mine")
          (codes "wildcard-domain")
          (filter_of (from_allowlist environment.from_str [])))
connect-captures_example =
    connect-captures environment relay_handler none none server_ports relay star_request
      (codes "anonymous") (codes "shop.relay.dev")
      (record { pattern = codes "*.relay.dev"; base_domain = codes "relay.dev" }) token_valid refl
      refl star_pattern no_star star_matches no_shop

abbrev database_agent : RegisteredAgent
database_agent = record {
  agent_id = codes "agent-1";
  target_address = codes "10.0.0.5:5432";
  metadata = record {
    hostname = codes "db";
    platform = codes "linux";
    version = codes "1.0";
    location = none;
  };
  connected_at = 100;
}

abbrev server : Server (Unit {0})
server = record {
  relay = relay;
  agents = record {
    agent_registry = some ((codes "agent-1", database_agent) ∷ []);
    agent_connections =
        (codes "agent-1", record { agent_id = codes "agent-1"; connection = 7 }) ∷ [];
  };
}

handle_connection-reverse_iff_example :
    ((handle_connection environment relay_handler none none server_ports server
        (reverse_tunnel_request (codes "mine") (codes "10.0.0.5:5432") (codes "agent-1"))).1
      ≡ reverse_answer (ok 7))
    ↔ IsReachable server.agents (codes "10.0.0.5:5432") (codes "agent-1") 7
handle_connection-reverse_iff_example =
    handle_connection-reverse_iff environment relay_handler none none server_ports server
      (codes "mine") (codes "10.0.0.5:5432") (codes "agent-1") 7

abbrev served_state : Shared
served_state =
    (register_route all_available zero_hash relay_handler shared (codes "mine") (tcp 0)
      any_filter).0

mine-IsServed : IsServed spawner (codes "mine") 9000 served_state
mine-IsServed =
    register_route-IsServed all_available zero_hash relay_handler shared (codes "mine") 0 9000
      any_filter ports spawner refl (new-IsConsistent 9000 9010 300) refl port_given

unregister_route-IsServed_example :
    ((unregister_route 200 relay_handler served_state (codes "mine") (tcp 0)).1 ≡ ok tt)
    × (lookup
          (codes "mine")
          (unregister_route 200 relay_handler served_state
            (codes "mine")
            (tcp 0)).0.task_tracker.tasks
        ≡ none)
    × Any
        (λ handle. handle ≡ spawner (codes "mine") 9000)
        (unregister_route 200 relay_handler served_state
          (codes "mine")
          (tcp 0)).0.task_tracker.aborted
    × (b : PortAllocator) × ((unregister_route 200 relay_handler served_state
          (codes "mine")
          (tcp 0)).0.port_allocator
        ≡ some b)
    × (lookup (codes "mine") b.allocated_ports
        ≡ some (allocation 9000 (reserved (200 + b.reservation_ttl_seconds))))
unregister_route-IsServed_example =
    unregister_route-IsServed 200 relay_handler served_state (codes "mine") 0 9000 spawner
      mine-IsServed
