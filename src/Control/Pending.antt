-- ===== src/Control/Pending.antt =====
-- The requests that wait for a response: crates/localup-control/src/pending_requests.rs. A one-shot channel
-- is known by its number; the state says which receivers were dropped, and which message each channel
-- delivered.
pub mod Delivery
use localup.Base.{
  ℕ, ◌+◌, Bool, true, false, none, some, List, [], ◌∷◌, if◌then◌else◌, length, any, ◌==◌, nat_eq,
  list_eq, Map, lookup, remove, insert,
}

pub record PendingRequests (M : Type 0) : Type 0 where
  pub requests : Map ℕ ℕ
  pub next_channel : ℕ
  pub dropped : List ℕ
  pub delivered : Map ℕ M

unfoldable pub new : {M : Type 0} → PendingRequests M
new = record { requests = []; next_channel = 0; dropped = []; delivered = [] }

-- The receiver that is returned is that of the new channel.
unfoldable pub register : {M : Type 0} → PendingRequests M → ℕ → PendingRequests M × ℕ
register p stream_id = (
  record {
    requests = insert stream_id p.next_channel p.requests;
    next_channel = p.next_channel + 1;
    dropped = p.dropped;
    delivered = p.delivered;
  },
  p.next_channel,
)

abbrev pub is_dropped : ℕ → List ℕ → Bool
is_dropped channel dropped = any (λ d. d == channel) dropped

-- `tx.send(response)`, on a channel whose sender has been taken out of the map
abbrev pub send : {M : Type 0} → PendingRequests M → ℕ → M → PendingRequests M × Bool
send p channel response =
    if is_dropped channel p.dropped
    then (p, false)
    else (record p { delivered = insert channel response p.delivered }, true)

abbrev pub without : {M : Type 0} → PendingRequests M → ℕ → PendingRequests M
without p stream_id = record p { requests = remove stream_id p.requests }

unfoldable pub respond : {M : Type 0} → PendingRequests M → ℕ → M → PendingRequests M × Bool
respond p stream_id response = elim (lookup stream_id p.requests) [
  | none ↦ (p, false)
  | some channel ↦ send (without p stream_id) channel response
]

unfoldable pub cancel : {M : Type 0} → PendingRequests M → ℕ → PendingRequests M
cancel p stream_id = without p stream_id

unfoldable pub count : {M : Type 0} → PendingRequests M → ℕ
count p = length p.requests

-- `drop(rx)`
unfoldable pub drop_receiver : {M : Type 0} → PendingRequests M → ℕ → PendingRequests M
drop_receiver p channel = record p { dropped = channel ∷ p.dropped }
