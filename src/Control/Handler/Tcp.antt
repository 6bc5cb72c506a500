-- ===== src/Control/Handler/Tcp.antt =====
-- The port and the task of a TCP tunnel.
use localup.Base.{
  ◌+◌, false, ℕ, ◌≡◌, refl, ap, Bool, Option, none, some, Any, here, ==_refl, nat_eq, list_eq,
  lookup, remove, lookup-remove, lookup-insert_self, Text, Result, ok, err,
}
use localup.Proto.IpFilter.{IpFilter}
use localup.ExitNode.Ports.{
  AllocateError, PortAllocator, active, reserved, allocation, allocate, reserve,
}
use localup.ExitNode.Ports.Invariant.{IsConsistent}
use localup.ExitNode.Ports.Holding.{allocate-IsActive, deallocate-active}
use localup.Control.Tasks.{TaskTracker}
use localup.Control.Tasks
use localup.Control.Endpoints.{tcp}
use localup.Control.Handler.{
  Handler, Shared, RegisterError, port_error, requested, spawn_proxy, spawned, register_tcp,
  register_route, unregister_route,
}

-- The port is active for the tunnel in an allocator that works, and the task that serves the port is
-- tracked under the tunnel's name.
abbrev pub IsServed : (Text → ℕ → ℕ) → Text → ℕ → Shared → Type 0
IsServed spawner id port s =
    (a : PortAllocator) × (s.port_allocator ≡ some a)
    × (a.poisoned ≡ false)
    × (lookup id a.allocated_ports ≡ some (allocation port active))
    × (lookup id s.task_tracker.tasks ≡ some (spawner id port))

spawned-IsServed :
    (h : Handler) (s : Shared) (id : Text) (port : ℕ) (spawner : Text → ℕ → ℕ)
    (found : PortAllocator × Result AllocateError ℕ)
    → h.tcp_proxy_spawner ≡ some spawner
    → (spawned h s id found).1 ≡ ok (some port)
    → ((found.1 ≡ ok port)
        → (found.0.poisoned ≡ false)
          × (lookup id found.0.allocated_ports ≡ some (allocation port active)))
    → IsServed spawner id port (spawned h s id found).0
unfolding Tasks.register
spawned-IsServed h s id port spawner (a, err e) known done has = absurd (refused done)
  where
    refused : ◌≡◌ {A = Result RegisterError (Option ℕ)} (err (port_error e)) (ok (some port)) → ⊥
    refused x = cc
spawned-IsServed h s id port spawner (a, ok p) known done has =
    let same : p ≡ port = same_port done in
    (a, refl, (has (ap ok same)).0, (has (ap ok same)).1, tracked same)
  where
    same_port : ◌≡◌ {A = Result RegisterError (Option ℕ)} (ok (some p)) (ok (some port)) → p ≡ port
    same_port x = cc

    tracked :
        p ≡ port
        → lookup id (spawn_proxy h.tcp_proxy_spawner s.task_tracker id p).tasks
          ≡ some (spawner id port)
    tracked same =
        rw (known, same) (lookup-insert_self id (spawner id port) (remove id s.task_tracker.tasks))

module _ (is_port_available : ℕ → ℕ → Bool) (hash : Text → ℕ) where
  -- A successful registration of a TCP tunnel, with a consistent port allocator and a spawner of proxies,
  -- answers the port that is then active for the tunnel in the allocator, and the task that serves this port
  -- is tracked under the tunnel's name.
  pub register_route-IsServed :
      (h : Handler) (s : Shared) (id : Text) (requested_port port : ℕ) (filter : IpFilter)
      (a : PortAllocator) (spawner : Text → ℕ → ℕ)
      → s.port_allocator ≡ some a
      → IsConsistent a
      → h.tcp_proxy_spawner ≡ some spawner
      → (register_route is_port_available hash h s id (tcp requested_port) filter).1
        ≡ ok (some port)
      → IsServed spawner id port
          (register_route is_port_available hash h s id (tcp requested_port) filter).0
  unfolding register_route register_tcp
  register_route-IsServed h s id requested_port port filter a spawner e c known done =
      let found = allocate is_port_available hash a id (requested requested_port) in
      let done' : (spawned h s id found).1 ≡ ok (some port) = rw e at done in
      rw e (
        spawned-IsServed h s id port spawner found known done'
          (allocate-IsActive is_port_available hash a id port (requested requested_port) c))

-- The end of a TCP tunnel whose port is active in an allocator that works, and whose task is tracked, does
-- not panic: it aborts this task, tracks none for the tunnel any more, and reserves the port for the tunnel,
-- from now on for the lifetime of reservations.
pub unregister_route-IsServed :
    (now : ℕ) (h : Handler) (s : Shared) (id : Text) (requested_port port : ℕ)
    (spawner : Text → ℕ → ℕ)
    → IsServed spawner id port s
    → ((unregister_route now h s id (tcp requested_port)).1 ≡ ok tt)
      × (lookup id (unregister_route now h s id (tcp requested_port)).0.task_tracker.tasks ≡ none)
      × Any
          (λ handle. handle ≡ spawner id port)
          (unregister_route now h s id (tcp requested_port)).0.task_tracker.aborted
      × (b : PortAllocator) × ((unregister_route now h s id (tcp requested_port)).0.port_allocator
          ≡ some b)
      × (lookup id b.allocated_ports
          ≡ some (allocation port (reserved (now + b.reservation_ttl_seconds))))
unfolding unregister_route Tasks.unregister
unregister_route-IsServed now h s id requested_port port spawner (a, e, sane, own, tracked) =
    let freed = deallocate-active now a id port sane own in
    rw (e, freed)
      (
        refl,
        rw (lookup-remove id id s.task_tracker.tasks, ==_refl id) refl,
        rw tracked (here refl),
        reserve now a id port active,
        refl,
        lookup-insert_self id (allocation port (reserved (now + a.reservation_ttl_seconds)))
            a.allocated_ports,
      )
