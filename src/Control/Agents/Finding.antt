-- ===== src/Control/Agents/Finding.antt =====
-- The search for an agent by its address.
use localup.Base.{
  ◌≡◌, refl, sym, ap, ◌∙◌, subst, inl, inr, Bool, true, false, Option, none, some, List, [], ◌∷◌,
  Bool-cases, is_some, All, ◌==◌, ==_iff, ==_refl, nat_eq, list_eq, Map, lookup, remove, insert,
  contains_key, Distinct, remove-Distinct, insert-Distinct, Text,
}
use localup.Control.Agents.{
  RegisteredAgent, new, register_or_replace, register, unregister, get, find_by_address,
}

-- Each identifier stands once, and every agent stands under its own.
abbrev pub IsRegistry : Map Text RegisteredAgent → Type 0
IsRegistry agents =
    Distinct agents × All (λ (e : Text × RegisteredAgent). e.0 ≡ e.1.agent_id) agents

pub data Call : Type 0 where
  registers replaces : RegisteredAgent → Call
  unregisters : Text → Call

unfoldable pub step : Map Text RegisteredAgent → Call → Map Text RegisteredAgent
step agents (registers agent) = (register agents agent).0
step agents (replaces agent) = (register_or_replace agents agent).0
step agents (unregisters agent_id) = (unregister agents agent_id).0

unfoldable pub run : Map Text RegisteredAgent → List Call → Map Text RegisteredAgent
run agents [] = agents
run agents (call ∷ calls) = run (step agents call) calls

All-remove :
    (id : Text) (agents : Map Text RegisteredAgent)
    → All (λ (e : Text × RegisteredAgent). e.0 ≡ e.1.agent_id) agents
    → All (λ (e : Text × RegisteredAgent). e.0 ≡ e.1.agent_id) (remove id agents)
unfolding remove
All-remove id [] h = tt
All-remove id ((i, agent) ∷ agents) h = elim (Bool-cases (i == id)) [
  | inl e ↦ rw e (All-remove id agents h.1)
  | inr e ↦ rw e (h.0, All-remove id agents h.1)
]

insert-IsRegistry :
    (agents : Map Text RegisteredAgent) (agent : RegisteredAgent)
    → IsRegistry agents
    → IsRegistry (insert agent.agent_id agent agents)
unfolding insert
insert-IsRegistry agents agent (d, own) =
    (insert-Distinct agent.agent_id agent agents d, (refl, All-remove agent.agent_id agents own))

step-IsRegistry :
    (agents : Map Text RegisteredAgent) (call : Call)
    → IsRegistry agents
    → IsRegistry (step agents call)
unfolding step register register_or_replace unregister
step-IsRegistry agents (registers agent) r =
    elim (Bool-cases (contains_key agent.agent_id agents)) [
      | inl e ↦ rw (e, step, register) r
      | inr e ↦ rw (e, step, register) (insert-IsRegistry agents agent r)
    ]
step-IsRegistry agents (replaces agent) r = insert-IsRegistry agents agent r
step-IsRegistry agents (unregisters id) (d, own) =
    (remove-Distinct id agents d, All-remove id agents own)

run-IsRegistry :
    (agents : Map Text RegisteredAgent) (calls : List Call)
    → IsRegistry agents
    → IsRegistry (run agents calls)
unfolding run
run-IsRegistry agents [] r = r
run-IsRegistry agents (call ∷ calls) r =
    run-IsRegistry (step agents call) calls (step-IsRegistry agents call r)

lookup-here :
    (id : Text) (agent : RegisteredAgent) (agents : Map Text RegisteredAgent)
    → lookup id ((id, agent) ∷ agents) ≡ some agent
unfolding lookup
lookup-here id agent agents = rw (==_refl id)

lookup-there :
    (i id : Text) (first agent : RegisteredAgent) (agents : Map Text RegisteredAgent)
    → lookup i agents ≡ none
    → lookup id agents ≡ some agent
    → lookup id ((i, first) ∷ agents) ≡ some agent
unfolding lookup
lookup-there i id first agent agents fresh h = elim (Bool-cases (i == id)) [
  | inl e ↦
      absurd (nothing (sym (subst (λ k. lookup k agents ≡ none) ((==_iff i id).0 e) fresh) ∙ h))
  | inr e ↦ rw e h
]
  where
    nothing : ◌≡◌ {A = Option RegisteredAgent} none (some agent) → ⊥
    nothing e = cc

-- The search by address answers with an agent of that address, which `get` finds under its identifier.
find_sound :
    (agents : Map Text RegisteredAgent) (address : Text) (agent : RegisteredAgent)
    → IsRegistry agents
    → find_by_address agents address ≡ some agent
    → (agent.target_address ≡ address) × (get agents agent.agent_id ≡ some agent)
unfolding find_by_address get
find_sound [] address agent r h = absurd (bad h)
  where
    bad : ◌≡◌ {A = Option RegisteredAgent} none (some agent) → ⊥
    bad e = cc
find_sound ((id, first) ∷ agents) address agent ((fresh, d), (own, owns)) h =
    elim (Bool-cases (first.target_address == address)) [
      | inl e ↦
          let same : first ≡ agent = some_same (rw e at h) in
          (
            ap (λ x. x.target_address) (sym same) ∙ (==_iff first.target_address address).0 e,
            subst (λ x. lookup x.agent_id ((id, first) ∷ agents) ≡ some x) same
                (subst (λ k. lookup k ((id, first) ∷ agents) ≡ some first) own
                  (lookup-here id first agents)),
          )
      | inr e ↦
          let (found, got) = find_sound agents address agent (d, owns) (rw e at h) in
          (found, lookup-there id agent.agent_id first agent agents fresh got)
    ]
  where
    some_same : {x : RegisteredAgent} → some x ≡ some agent → x ≡ agent
    some_same e = cc

find_complete :
    (agents : Map Text RegisteredAgent) (address : Text) (id : Text) (agent : RegisteredAgent)
    → lookup id agents ≡ some agent
    → agent.target_address ≡ address
    → is_some (find_by_address agents address) ≡ true
unfolding find_by_address lookup
find_complete [] address id agent h e = absurd (bad h)
  where
    bad : ◌≡◌ {A = Option RegisteredAgent} none (some agent) → ⊥
    bad e = cc
find_complete ((i, first) ∷ agents) address id agent h e =
    elim (Bool-cases (first.target_address == address)) [
      | inl hit ↦ rw hit
      | inr miss ↦ elim (Bool-cases (i == id)) [
        | inl same ↦ absurd (
            clash miss (
              (==_iff first.target_address address).1
                (ap (λ x. x.target_address) (some_same (rw same at h)) ∙ e)))
        | inr other ↦ rw miss (find_complete agents address id agent (rw other at h) e)
      ]
    ]
  where
    clash : {b : Bool} → b ≡ false → b ≡ true → ⊥
    clash e e' = cc

    some_same : {x : RegisteredAgent} → some x ≡ some agent → x ≡ agent
    some_same e = cc

-- After any calls on a new registry, the search by address answers only with an agent of that address
-- which is registered under its identifier, and it answers if any registered agent has the address.
pub find_by_address-run :
    (calls : List Call) (address : Text)
    → ((agent : RegisteredAgent)
        → find_by_address (run new calls) address ≡ some agent
        → (agent.target_address ≡ address) × (get (run new calls) agent.agent_id ≡ some agent))
      × ((id : Text) (agent : RegisteredAgent)
          → get (run new calls) id ≡ some agent
          → agent.target_address ≡ address
          → is_some (find_by_address (run new calls) address) ≡ true)
unfolding get new
find_by_address-run calls address = (
  λ agent h. find_sound (run new calls) address agent (run-IsRegistry [] calls (tt, tt)) h,
  λ id agent h e. find_complete (run new calls) address id agent h e,
)
