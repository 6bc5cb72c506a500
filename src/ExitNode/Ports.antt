-- ===== src/ExitNode/Ports.antt =====
-- The ports of TCP tunnels: `PortAllocator` of crates/localup-exit-node/src/main.rs.
-- A port is a u16, a time a number of seconds. What the operating system says of a port when a bind is
-- tried, and the hash of an identifier, are parameters; a bind can succeed once and fail the next time, so
-- it is asked with the number of the attempt within the call. The set of free ports is a list, in the
-- order in which the code iterates over it. Each operation holds its locks from its first to its last access. A
-- panic of `allocate` poisons both of them, which is a field of the state; an operation that finds a lock
-- poisoned panics and changes nothing.
pub mod Invariant
pub mod Steps
pub mod Searching
pub mod Calls
pub mod Holding
pub mod Tenure
pub mod Range
use localup.Base.{
  ℕ, zero, suc, ◌+◌, ◌-◌, ◌*◌, ◌%◌, min, Bool, true, false, not, ◌&&◌, Option, none, some, List, [],
  ◌∷◌, ltb, leb, eqb, if◌then◌else◌, Map, lookup, remove, insert, Text, Result, ok, err, ◌||◌,
  nat_eq, list_eq,
}

pub data AllocationState : Type 0 where
  active : AllocationState
  reserved : ℕ → AllocationState

pub record PortAllocation : Type 0 where
  pub port : ℕ
  pub state : AllocationState

pub record PortAllocator : Type 0 where
  pub range_start : ℕ
  pub range_end : ℕ
  pub available_ports : List ℕ
  pub allocated_ports : Map Text PortAllocation
  pub reservation_ttl_seconds : ℕ
  pub poisoned : Bool

-- The error messages, and a panic: of `hash % 0`, or of `unwrap` on a poisoned lock.
pub data AllocateError : Type 0 where
  in_use not_available : ℕ → AllocateError
  no_available_ports panics : AllocateError

abbrev pub port_count : ℕ
port_count = 65536

unfoldable pub elem : ℕ → List ℕ → Bool
elem p [] = false
elem p (q ∷ ports) = eqb q p || elem p ports

unfoldable pub delete : ℕ → List ℕ → List ℕ
delete p [] = []
delete p (q ∷ ports) = let rest = delete p ports in if eqb q p then rest else q ∷ rest

-- `count` ports from `first`
unfoldable pub ports_from : ℕ → ℕ → List ℕ
ports_from first zero = []
ports_from first (suc count) = first ∷ ports_from (first + 1) count

unfoldable pub with_reservation_ttl : ℕ → ℕ → ℕ → PortAllocator
with_reservation_ttl range_start range_end ttl_seconds = record {
  range_start = range_start;
  range_end = range_end;
  available_ports = ports_from range_start (range_end + 1 - range_start);
  allocated_ports = [];
  reservation_ttl_seconds = ttl_seconds;
  poisoned = false;
}

unfoldable pub new : ℕ → ℕ → PortAllocator
new range_start range_end = with_reservation_ttl range_start range_end 300

abbrev pub with_available : PortAllocator → List ℕ → PortAllocator
with_available a ports = record {
  range_start = a.range_start;
  range_end = a.range_end;
  available_ports = ports;
  allocated_ports = a.allocated_ports;
  reservation_ttl_seconds = a.reservation_ttl_seconds;
  poisoned = a.poisoned;
}

abbrev pub with_allocated : PortAllocator → Map Text PortAllocation → PortAllocator
with_allocated a allocated = record {
  range_start = a.range_start;
  range_end = a.range_end;
  available_ports = a.available_ports;
  allocated_ports = allocated;
  reservation_ttl_seconds = a.reservation_ttl_seconds;
  poisoned = a.poisoned;
}

abbrev pub poison : PortAllocator → PortAllocator
poison a = record a { poisoned = true }

-- `available.remove(&port)`
unfoldable pub drop_port : PortAllocator → ℕ → PortAllocator
drop_port a port = with_available a (delete port a.available_ports)

abbrev pub allocation : ℕ → AllocationState → PortAllocation
allocation port state = record { port = port; state = state }

-- `available.remove(&port)` and `allocated.insert(localup_id, ..)`
unfoldable pub take_port : PortAllocator → Text → ℕ → PortAllocator
take_port a id port =
    with_allocated (drop_port a port) (insert id (allocation port active) a.allocated_ports)

-- The search goes on, or has allocated a port.
pub data Search : Type 0 where
  searching : PortAllocator → Search
  got : PortAllocator → ℕ → Search

abbrev pub then_search : (PortAllocator → Search) → Search → Search
then_search rest (searching a) = rest a
then_search rest (got a port) = got a port

-- The size of the range in u16; the whole range of ports wraps to 0.
unfoldable pub range_size : PortAllocator → ℕ
range_size a = (a.range_end + port_count - a.range_start + 1) % port_count

abbrev pub port_of : Option PortAllocation → Option ℕ
port_of none = none
port_of (some al) = some al.port

-- `none` if it panics
unfoldable pub get_allocated_port : PortAllocator → Text → Option (Option ℕ)
get_allocated_port a id = if a.poisoned then none else some (port_of (lookup id a.allocated_ports))

module _ (is_port_available : ℕ → ℕ → Bool) (hash : Text → ℕ) where
  unfoldable pub hash_to_port : PortAllocator → Text → Result AllocateError ℕ
  hash_to_port a id =
      if eqb (range_size a) 0
      then err panics
      else ok ((a.range_start + hash id % range_size a) % port_count)

  -- A port behind the test that it is free: allocated, or no longer tracked.
  unfoldable pub try_port : ℕ → PortAllocator → Text → ℕ → Search
  try_port attempt a id port =
      if is_port_available attempt port
      then got (take_port a id port) port
      else searching (drop_port a port)

  unfoldable pub try_nearby : ℕ → PortAllocator → Text → ℕ → Search
  try_nearby attempt a id port =
      if leb a.range_start port && leb port a.range_end && elem port a.available_ports
      then try_port attempt a id port
      else searching a

  -- The ports at the offsets from `offset` on, above the preferred port first.
  unfoldable pub nearby : ℕ → ℕ → PortAllocator → Text → ℕ → Search
  nearby zero offset a id preferred = searching a
  nearby (suc count) offset a id preferred =
      then_search
        (λ b.
          then_search (λ c. nearby count (offset + 1) c id preferred)
            (try_nearby (2 * offset + 1) b id (preferred - offset)))
        (try_nearby (2 * offset) a id (min (preferred + offset) (port_count - 1)))

  unfoldable pub fallback : ℕ → List ℕ → PortAllocator → Text → Search
  fallback attempt [] a id = searching a
  fallback attempt (port ∷ ports) a id =
      then_search (λ b. fallback (attempt + 1) ports b id) (try_port attempt a id port)

  unfoldable pub allocate_requested :
      PortAllocator → Text → ℕ → PortAllocator × Result AllocateError ℕ
  allocate_requested a id port =
      if elem port a.available_ports && is_port_available 0 port
      then (take_port a id port, ok port)
      else if elem port a.available_ports && not (is_port_available 1 port)
      then (drop_port a port, err (in_use port))
      else (a, err (not_available port))

  abbrev pub found : Search → PortAllocator × Result AllocateError ℕ
  found (got a port) = (a, ok port)
  found (searching a) = (a, err no_available_ports)

  -- The search from the preferred port: it, those near it, then all that are free.
  unfoldable pub search_port : PortAllocator → Text → ℕ → Search
  search_port a id preferred =
      let listed = elem preferred a.available_ports in
      if listed && is_port_available 0 preferred
      then got (take_port a id preferred) preferred
      else then_search (λ b. fallback 22 b.available_ports b id)
          (nearby 10 1
            (if listed && not (is_port_available 1 preferred) then drop_port a preferred else a) id
            preferred)

  abbrev pub from_preferred :
      PortAllocator → Text → Result AllocateError ℕ → PortAllocator × Result AllocateError ℕ
  from_preferred a id (err e) = (poison a, err e)
  from_preferred a id (ok preferred) = found (search_port a id preferred)

  abbrev pub allocate_new : PortAllocator → Text → Option ℕ → PortAllocator × Result AllocateError ℕ
  allocate_new a id (some port) = allocate_requested a id port
  allocate_new a id none = from_preferred a id (hash_to_port a id)

  abbrev pub reactivate : PortAllocator → Text → ℕ → AllocationState → PortAllocator
  reactivate a id port active = a
  reactivate a id port (reserved until) =
      with_allocated a (insert id (allocation port active) a.allocated_ports)

  unfoldable pub allocate : PortAllocator → Text → Option ℕ → PortAllocator × Result AllocateError ℕ
  allocate a id requested_port =
      if a.poisoned then (a, err panics) else elim (lookup id a.allocated_ports) [
        | some al ↦ (reactivate a id al.port al.state, ok al.port)
        | none ↦ allocate_new a id requested_port
      ]

abbrev pub reserve : ℕ → PortAllocator → Text → ℕ → AllocationState → PortAllocator
reserve now a id port (reserved until) = a
reserve now a id port active =
    with_allocated a
      (insert id (allocation port (reserved (now + a.reservation_ttl_seconds))) a.allocated_ports)

-- `none` if it panics
unfoldable pub deallocate : ℕ → PortAllocator → Text → Option PortAllocator
deallocate now a id = if a.poisoned then none else elim (lookup id a.allocated_ports) [
  | none ↦ some a
  | some al ↦ some (reserve now a id al.port al.state)
]

abbrev pub is_expired : ℕ → AllocationState → Bool
is_expired now active = false
is_expired now (reserved until) = ltb until now

unfoldable pub expired_ids : ℕ → Map Text PortAllocation → List Text
expired_ids now [] = []
expired_ids now ((id, al) ∷ m) =
    let rest = expired_ids now m in if is_expired now al.state then id ∷ rest else rest

-- `allocated.remove(&localup_id)`, and `available.insert(..)` of its port
unfoldable pub release : PortAllocator → Text → PortAllocator
release a id = elim (lookup id a.allocated_ports) [
  | none ↦ a
  | some al ↦
      with_allocated (with_available a (al.port ∷ delete al.port a.available_ports))
        (remove id a.allocated_ports)
]

abbrev pub release_all : List Text → PortAllocator → PortAllocator
release_all [] a = a
release_all (id ∷ ids) a = release_all ids (release a id)

-- `none` if it panics
unfoldable pub cleanup_expired : ℕ → PortAllocator → Option PortAllocator
cleanup_expired now a =
    if a.poisoned then none else some (release_all (expired_ids now a.allocated_ports) a)
