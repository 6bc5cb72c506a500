-- ===== src/Control/Dispatch/Unchecked.antt =====
-- Which reverse tunnels are accepted.
use localup.Base.{
  ℕ, ◌≡◌, ap, ◌↔◌, inl, inr, Option, none, some, Option-cases, ◌==◌, ==_iff, nat_eq, list_eq, Map,
  lookup, Text, Result, ok, ensure, >>=-eq-ok, ok_or, ok_or_ok, ensure_ok,
}
use localup.Control.Agents.{RegisteredAgent, AgentRegistry, find_by_address}
use localup.Control.Endpoints.{DomainProvider, Ports}
use localup.Control.Admission.{JwtClaims}
use localup.Control.Handler.{Handler}
use localup.Control.Clients.{Environment}
use localup.Control.Reverse.{
  AgentConnection, AgentState, ReverseReject, not_enabled, no_agent_available, agent_id_mismatch,
  connection_not_available, get_connection, handle_reverse_localup_request,
}
use localup.Control.Dispatch.{reverse_tunnel_request, reverse_answer, Server, handle_connection}

-- The agent is registered for the address and has this connection.
abbrev pub IsReachable : AgentState → Text → Text → ℕ → Type 0
IsReachable s remote_address agent_id connection =
    (registry : AgentRegistry) × (agent : RegisteredAgent) × (c : AgentConnection)
    × (s.agent_registry ≡ some registry)
    × (find_by_address registry remote_address ≡ some agent)
    × (agent.agent_id ≡ agent_id)
    × (lookup agent_id s.agent_connections ≡ some c)
    × (c.connection ≡ connection)

get_connection_iff :
    (m : Map Text AgentConnection) (agent_id : Text) (connection : ℕ)
    → get_connection m agent_id ≡ some connection
    → (c : AgentConnection) × (lookup agent_id m ≡ some c) × (c.connection ≡ connection)
unfolding get_connection
get_connection_iff m agent_id connection h = elim (Option-cases (lookup agent_id m)) [
  | inl e ↦ absurd (nothing (rw e at h))
  | inr (c, e) ↦ (c, e, same c (rw e at h))
]
  where
    nothing : ◌≡◌ {A = Option ℕ} none (some connection) → ⊥
    nothing x = cc

    same : (c : AgentConnection) → some c.connection ≡ some connection → c.connection ≡ connection
    same c x = cc

request_iff :
    (s : AgentState) (remote_address agent_id : Text) (connection : ℕ)
    → (handle_reverse_localup_request s remote_address agent_id ≡ ok connection)
      ↔ IsReachable s remote_address agent_id connection
unfolding handle_reverse_localup_request get_connection
request_iff s remote_address agent_id connection = (
  λ h.
      let (registry, e1, h1) = >>=-eq-ok (ok_or not_enabled s.agent_registry) _ h in
      let (agent, e2, h2) =
        >>=-eq-ok
          (ok_or (no_agent_available remote_address) (find_by_address registry remote_address)) _
          h1 in
      let (u, e3, h3) =
        >>=-eq-ok (ensure (agent.agent_id == agent_id) (agent_id_mismatch agent.agent_id agent_id))
          _ h2 in
      let (c, e4, same) =
        get_connection_iff s.agent_connections agent_id connection
          (ok_or_ok connection_not_available _ connection h3) in
      (
        registry,
        agent,
        c,
        ok_or_ok not_enabled _ registry e1,
        ok_or_ok (no_agent_available remote_address) _ agent e2,
        (==_iff agent.agent_id agent_id).0 (ensure_ok _ _ e3),
        e4,
        same,
      ),
  λ (registry, agent, c, e1, e2, e3, e4, e5).
      rw e1 (rw e2 (rw ((==_iff agent.agent_id agent_id).1 e3) (rw e4 (ap ok e5)))),
)

-- A request for a reverse tunnel is accepted exactly if an agent of the given identifier is found for the
-- address and has a connection. The validator of tokens has no say in it: unlike the other first messages,
-- this one is answered without a check of any token.
pub handle_connection-reverse_iff :
    {S : Type 0} (env : Environment S) (h : Handler) (provider : Option (DomainProvider S))
    (validator : Option (Text → Result Text JwtClaims)) (ports : Ports) (s : Server S)
    (id remote_address agent_id : Text) (connection : ℕ)
    → ((handle_connection env h provider validator ports s
          (reverse_tunnel_request id remote_address agent_id)).1
        ≡ reverse_answer (ok connection))
      ↔ IsReachable s.agents remote_address agent_id connection
unfolding handle_connection
handle_connection-reverse_iff env h provider validator ports s id remote_address agent_id
      connection =
    let (to, from) = request_iff s.agents remote_address agent_id connection in
    (λ e. to (answered e), λ r. ap reverse_answer (from r))
  where
    answered :
        {r : Result ReverseReject ℕ}
        → reverse_answer r ≡ reverse_answer (ok connection)
        → r ≡ ok connection
    answered x = cc
