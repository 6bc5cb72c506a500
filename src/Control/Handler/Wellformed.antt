-- ===== src/Control/Handler/Wellformed.antt =====
-- The handler and the well-formedness of the registry and the port allocator.
use localup.Base.{
  sym, subst, inl, inr, Option-cases, ℕ, Bool, Option, none, some, nat_eq, list_eq, Text, Result,
  ok, err,
}
use localup.Proto.IpFilter.{IpFilter}
use localup.Router.Registry.{key_eq}
use localup.Router.Registry.Operations.{Inv}
use localup.ExitNode.Ports.{AllocateError, PortAllocator, deallocate}
use localup.ExitNode.Ports.Invariant.{IsConsistent}
use localup.ExitNode.Ports.Calls.{deallocate-IsConsistent, allocate-IsConsistent}
use localup.Control.Endpoints.{Protocol, tcp, tls, http, https}
use localup.Control.Handler.Registering.{
  register_web-Inv, register_patterns-Inv, unregister_web-Inv, unregister_patterns-Inv,
}
use localup.Control.Handler.{
  Handler, Shared, Outcome, with_registry, spawned, requested, register_tcp, register_route,
  with_deallocated, deallocated, unregister_route,
}

abbrev pub IsConsistentIfAny : Option PortAllocator → Type 0
IsConsistentIfAny none = Unit
IsConsistentIfAny (some a) = IsConsistent a

-- The registry is well formed, and the port allocator, if there is one, is consistent.
pub record IsWellFormed (s : Shared) : Type 0 where
  pub registry_inv : Inv s.route_registry
  pub ports_consistent : IsConsistentIfAny s.port_allocator

with_registry-IsWellFormed :
    (s : Shared) (o : Outcome) → IsWellFormed s → Inv o.0 → IsWellFormed (with_registry s o).0
with_registry-IsWellFormed s (r, ok done) w v = record {
  registry_inv = v;
  ports_consistent = w.ports_consistent;
}
with_registry-IsWellFormed s (r, err e) w v = record {
  registry_inv = v;
  ports_consistent = w.ports_consistent;
}

spawned-IsWellFormed :
    (h : Handler) (s : Shared) (id : Text) (found : PortAllocator × Result AllocateError ℕ)
    → IsWellFormed s
    → IsConsistent found.0
    → IsWellFormed (spawned h s id found).0
spawned-IsWellFormed h s id (a, ok port) w c = record {
  registry_inv = w.registry_inv;
  ports_consistent = c;
}
spawned-IsWellFormed h s id (a, err e) w c = record {
  registry_inv = w.registry_inv;
  ports_consistent = c;
}

module _ (is_port_available : ℕ → ℕ → Bool) (hash : Text → ℕ) where
  register_tcp-IsWellFormed :
      (h : Handler) (s : Shared) (id : Text) (port : ℕ) (a : Option PortAllocator)
      → IsWellFormed s
      → IsConsistentIfAny a
      → IsWellFormed (register_tcp is_port_available hash h s id port a).0
  unfolding register_tcp
  register_tcp-IsWellFormed h s id port none w c = w
  register_tcp-IsWellFormed h s id port (some a) w c =
      spawned-IsWellFormed h s id _ w
        (allocate-IsConsistent is_port_available hash a id (requested port) c)

  pub register_route-IsWellFormed :
      (h : Handler) (s : Shared) (id : Text) (protocol : Protocol) (filter : IpFilter)
      → IsWellFormed s
      → IsWellFormed (register_route is_port_available hash h s id protocol filter).0
  unfolding register_route
  register_route-IsWellFormed h s id (http sub custom) filter w =
      with_registry-IsWellFormed s _ w
        (register_web-Inv h s.route_registry id sub custom filter w.registry_inv)
  register_route-IsWellFormed h s id (https sub custom) filter w =
      with_registry-IsWellFormed s _ w
        (register_web-Inv h s.route_registry id sub custom filter w.registry_inv)
  register_route-IsWellFormed h s id (tcp port) filter w =
      register_tcp-IsWellFormed h s id port s.port_allocator w w.ports_consistent
  register_route-IsWellFormed h s id (tls port patterns) filter w =
      with_registry-IsWellFormed s _ w
        (register_patterns-Inv s.route_registry id patterns filter w.registry_inv)

deallocated-IsWellFormed :
    (now : ℕ) (s : Shared) (id : Text) (a : Option PortAllocator)
    → IsWellFormed s
    → IsConsistentIfAny a
    → IsWellFormed (deallocated now s id a).0
deallocated-IsWellFormed now s id none w c = w
deallocated-IsWellFormed now s id (some a) w c = elim (Option-cases (deallocate now a id)) [
  | inl e ↦ subst (λ o. IsWellFormed (with_deallocated s o).0) (sym e) w
  | inr (b, e) ↦
      subst (λ o. IsWellFormed (with_deallocated s o).0) (sym e)
        (record {
          registry_inv = w.registry_inv;
          ports_consistent = deallocate-IsConsistent now a id c b e;
        })
]

pub unregister_route-IsWellFormed :
    (now : ℕ) (h : Handler) (s : Shared) (id : Text) (protocol : Protocol)
    → IsWellFormed s
    → IsWellFormed (unregister_route now h s id protocol).0
unfolding unregister_route
unregister_route-IsWellFormed now h s id (http sub custom) w = record {
  registry_inv = unregister_web-Inv h s.route_registry sub custom w.registry_inv;
  ports_consistent = w.ports_consistent;
}
unregister_route-IsWellFormed now h s id (https sub custom) w = record {
  registry_inv = unregister_web-Inv h s.route_registry sub custom w.registry_inv;
  ports_consistent = w.ports_consistent;
}
unregister_route-IsWellFormed now h s id (tcp port) w =
    deallocated-IsWellFormed now _ id s.port_allocator
      (record { registry_inv = w.registry_inv; ports_consistent = w.ports_consistent })
      w.ports_consistent
unregister_route-IsWellFormed now h s id (tls port patterns) w = record {
  registry_inv = unregister_patterns-Inv s.route_registry patterns w.registry_inv;
  ports_consistent = w.ports_consistent;
}
