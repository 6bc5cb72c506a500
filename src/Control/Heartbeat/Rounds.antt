-- ===== src/Control/Heartbeat/Rounds.antt =====
-- The rounds of pings and pongs.
use localup.Base.{
  is_empty, ◌⊎◌, Bool, ℕ, ◌+◌, ◌≤◌, ◌≡◌, Option, none, some, List, [], ◌∷◌, arith, if◌then◌else◌,
  nat_eq, list_eq,
}
use localup.Control.Heartbeat.{
  Loop, State, running, ended, ping, pong, disconnect, another_message, Received, message,
  stream_closed, stream_error, Event, tick, pong_timeout, receives, begin, after_ping,
  receive_client, receive_agent, Peer, client, agent, receive, step,
}

abbrev pub pings : Event → ℕ
pings (tick sent) = 1
pings pong_timeout = 0
pings (receives r) = 0

abbrev pub pongs : Event → ℕ
pongs (receives (message pong sent)) = 1
pongs (receives (message ping sent)) = 0
pongs (receives (message disconnect sent)) = 0
pongs (receives (message another_message sent)) = 0
pongs (receives stream_closed) = 0
pongs (receives stream_error) = 0
pongs (tick sent) = 0
pongs pong_timeout = 0

-- The loops that the heartbeat reaches from one, with the number of pings sent and of pongs received.
pub data Reaches (peer : Peer) (l : Loop) : Loop → ℕ → ℕ → Type 0 where
  at_start : Reaches peer l l 0 0
  onward :
      {m n : Loop} {sent received : ℕ} (now : ℕ) (e : Event)
      → Reaches peer l m sent received
      → step peer now m e ≡ some (running n)
      → Reaches peer l n (sent + pings e) (received + pongs e)

abbrev pub outstanding : Loop → ℕ
outstanding l = if l.waiting_for_pong then 1 else 0

received_outstanding :
    (peer : Peer) (m n : Loop) (r : Received)
    → receive peer m r ≡ running n
    → outstanding m ≤ outstanding n + pongs (receives r)
unfolding receive receive_client receive_agent
received_outstanding client m n (message ping sent) h = ground arith
received_outstanding client m n (message pong sent) h = ground arith
received_outstanding client m n (message disconnect sent) h = ground arith
received_outstanding client m n (message another_message sent) h = ground arith
received_outstanding client m n stream_closed h = ground arith
received_outstanding client m n stream_error h = ground arith
received_outstanding agent m n (message ping sent) h = ground arith
received_outstanding agent m n (message pong sent) h = ground arith
received_outstanding agent m n (message disconnect sent) h = ground arith
received_outstanding agent m n (message another_message sent) h = ground arith
received_outstanding agent m n stream_closed h = ground arith
received_outstanding agent m n stream_error h = ground arith

step-outstanding :
    (peer : Peer) (now : ℕ) (m n : Loop) (e : Event)
    → step peer now m e ≡ some (running n)
    → outstanding m + pings e ≤ outstanding n + pongs e
unfolding step after_ping
step-outstanding peer now m n (tick sent) h = ground arith
step-outstanding peer now m n pong_timeout h = ground arith
step-outstanding peer now m n (receives r) h =
    let done : receive peer m r ≡ running n = cc in
    omega (arith, received_outstanding peer m n r done)

Reaches-outstanding :
    (peer : Peer) (l : Loop) {m : Loop} {sent received : ℕ}
    → Reaches peer l m sent received
    → sent + outstanding l ≤ received + outstanding m
Reaches-outstanding peer l at_start = omega arith
Reaches-outstanding peer l (onward {m} {n} now e r taken) =
    omega (arith, Reaches-outstanding peer l r, step-outstanding peer now m n e taken)

-- At most one ping is outstanding: whatever the peer sends and whenever the branches are taken, the loop of
-- either kind of peer sends at most as many pings as it receives pongs, plus one while it waits for a pong.
pub Reaches-sent :
    (peer : Peer) (now : ℕ) (l : Loop) (sent received : ℕ)
    → Reaches peer (begin now) l sent received
    → sent ≤ received + outstanding l
unfolding begin
Reaches-sent peer now l sent received r = omega (arith, Reaches-outstanding peer (begin now) r)

-- The events of the loop's own timers, which are all there are when the peer sends nothing
abbrev pub IsTimer : ℕ × Event → Type 0
IsTimer (now, tick sent) = Unit
IsTimer (now, pong_timeout) = Unit
IsTimer (now, receives r) = ⊥

abbrev pub and_then : Bool → Option State → (Loop → Option State) → Option State
and_then last none next = none
and_then last (some ended) next = if last then some ended else none
and_then last (some (running l)) next = next l

-- The state after a list of events, each at its time, if all of them were possible: nothing happens after
-- the end.
unfoldable pub run : Peer → Loop → List (ℕ × Event) → Option State
run peer l [] = some (running l)
run peer l ((now, e) ∷ events) =
    and_then (is_empty events) (step peer now l e) (λ m. run peer m events)

-- The event does not leave the loop running.
abbrev Stops : Option State → Type 0
Stops s = (s ≡ none) ⊎ (s ≡ some ended)

-- At most five seconds after `t`
abbrev pub IsWithin : ℕ → ℕ × Event → Type 0
IsWithin t (now, e) = (t ≤ now) × (now ≤ t + 5)
