-- ===== src/Control/Heartbeat.antt =====
-- The heartbeat of a connection: the loops of `handle_client_connection` and of `handle_agent_connection` in
-- crates/localup-control/src/handler.rs. Times are in seconds. The runtime chooses among the branches that
-- are ready, so the event is an argument of the step; a branch whose guard is off gives `none`.
pub mod Rounds
use localup.Base.{
  ℕ, ◌+◌, ◌-◌, ◌*◌, ◌/◌, Bool, true, false, not, ◌&&◌, Option, none, some, leb, if◌then◌else◌,
}

-- The variables of the loop, with the start of the interval and its next tick.
pub record Loop : Type 0 where
  pub start : ℕ
  pub next_tick : ℕ
  pub waiting_for_pong : Bool
  pub pong_deadline : ℕ

pub data State : Type 0 where
  running : Loop → State
  ended : State

pub data Message : Type 0 where
  ping pong disconnect another_message : Message

-- What the stream gives: a message, and whether an answer to it can be sent, the end, or an error.
pub data Received : Type 0 where
  message : Message → Bool → Received
  stream_closed stream_error : Received

-- A tick, with whether the ping can be sent, the deadline of the pong, or the stream.
pub data Event : Type 0 where
  tick : Bool → Event
  pong_timeout : Event
  receives : Received → Event

unfoldable pub begin : ℕ → Loop
begin now = record { start = now; next_tick = now; waiting_for_pong = false; pong_deadline = now }

-- The next tick of an interval of ten seconds that skips the ticks it missed.
abbrev pub tick_after : ℕ → ℕ → ℕ
tick_after start now = start + 10 * ((now - start) / 10 + 1)

unfoldable pub after_ping : ℕ → Loop → Loop
after_ping now l = record {
  start = l.start;
  next_tick = tick_after l.start now;
  waiting_for_pong = true;
  pong_deadline = now + 5;
}

abbrev pub answered : Loop → Loop
answered l = record l { waiting_for_pong = false }

unfoldable pub receive_client : Loop → Received → State
receive_client l (message pong sent) = running (answered l)
receive_client l (message disconnect sent) = ended
receive_client l (message ping sent) = running l
receive_client l (message another_message sent) = running l
receive_client l stream_closed = ended
receive_client l stream_error = ended

unfoldable pub receive_agent : Loop → Received → State
receive_agent l (message ping sent) = if sent then running l else ended
receive_agent l (message pong sent) = running (answered l)
receive_agent l (message disconnect sent) = ended
receive_agent l (message another_message sent) = running l
receive_agent l stream_closed = ended
receive_agent l stream_error = ended

-- The two kinds of peers
pub data Peer : Type 0 where
  client agent : Peer

unfoldable pub receive : Peer → Loop → Received → State
receive client l r = receive_client l r
receive agent l r = receive_agent l r

unfoldable pub step : Peer → ℕ → Loop → Event → Option State
step peer now l (tick sent) =
    if not l.waiting_for_pong && leb l.next_tick now
    then some (if sent then running (after_ping now l) else ended)
    else none
step peer now l pong_timeout =
    if l.waiting_for_pong && leb l.pong_deadline now then some ended else none
step peer now l (receives r) = some (receive peer l r)
