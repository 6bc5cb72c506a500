-- ===== src/ExitNode/Ports/Invariant.antt =====
-- What holds of the allocator between calls, and that its small steps keep it.
use localup.Base.{
  ℕ, zero, suc, ◌+◌, ◌-◌, ◌≤◌, ◌<◌, ◌≡◌, true, false, Option, none, some, List, [], ◌∷◌, arith, eqb,
  if◌then◌else◌, nat_eq, list_eq, lookup, Text,
}
use localup.ExitNode.Ports.{
  PortAllocation, PortAllocator, elem, delete, ports_from, with_reservation_ttl, drop_port,
}

abbrev pub InRange : PortAllocator → ℕ → Type 0
InRange a p = (a.range_start ≤ p) × (p ≤ a.range_end)

abbrev pub Unique : List ℕ → Type 0
Unique [] = Unit
Unique (p ∷ ports) = (elem p ports ≡ false) × Unique ports

-- A free port is in the range.
abbrev pub FreeInRange : PortAllocator → Type 0
FreeInRange a = (p : ℕ) → elem p a.available_ports ≡ true → InRange a p

-- An allocated port is in the range and not free.
abbrev pub AllocatedInRange : PortAllocator → Type 0
AllocatedInRange a =
    (id : Text) (al : PortAllocation)
    → lookup id a.allocated_ports ≡ some al
    → InRange a al.port × (elem al.port a.available_ports ≡ false)

-- No two tunnels have one port.
abbrev pub Exclusive : PortAllocator → Type 0
Exclusive a =
    (id id' : Text) (al al' : PortAllocation)
    → lookup id a.allocated_ports ≡ some al
    → lookup id' a.allocated_ports ≡ some al'
    → al.port ≡ al'.port
    → id ≡ id'

pub record IsConsistent (a : PortAllocator) : Type 0 where
  pub free_in_range : FreeInRange a
  pub allocated_in_range : AllocatedInRange a
  pub exclusive : Exclusive a
  pub unique : Unique a.available_ports

pub elem-delete :
    (p q : ℕ) (ports : List ℕ) → elem p (delete q ports) ≡ (if eqb p q then false else elem p ports)
unfolding elem delete
elem-delete p q [] = ground arith
elem-delete p q (r ∷ ports) = ground (arith, elem-delete p q ports)

pub delete-Unique : (q : ℕ) (ports : List ℕ) → Unique ports → Unique (delete q ports)
unfolding delete
delete-Unique q [] u = tt
delete-Unique q (r ∷ ports) u = ground (arith, delete-Unique q ports u.1, elem-delete r q ports)

ports_from-elem :
    (first count p : ℕ) → elem p (ports_from first count) ≡ true → (first ≤ p) × (p < first + count)
unfolding elem ports_from
ports_from-elem first zero p h = ground arith
ports_from-elem first (suc count) p h = ground (arith, ports_from-elem (first + 1) count p)

ports_from-Unique : (first count : ℕ) → Unique (ports_from first count)
unfolding ports_from
ports_from-Unique first zero = tt
ports_from-Unique first (suc count) =
    (ground (arith, ports_from-elem (first + 1) count first), ports_from-Unique (first + 1) count)

pub new-IsConsistent : (first last ttl : ℕ) → IsConsistent (with_reservation_ttl first last ttl)
unfolding with_reservation_ttl lookup
new-IsConsistent first last ttl = record {
  free_in_range = λ p h. ground (arith, ports_from-elem first (last + 1 - first) p h);
  allocated_in_range = λ id al h. absurd (nothing al h);
  exclusive = λ id id' al al' h h' e. absurd (nothing al h);
  unique = ports_from-Unique first (last + 1 - first);
}
  where
    nothing : (al : PortAllocation) → ◌≡◌ {A = Option PortAllocation} none (some al) → ⊥
    nothing al e = cc

pub drop_port-IsConsistent :
    (a : PortAllocator) (port : ℕ) → IsConsistent a → IsConsistent (drop_port a port)
unfolding drop_port
drop_port-IsConsistent a port c = record {
  free_in_range = λ p h. c.free_in_range p (ground (arith, elem-delete p port a.available_ports));
  allocated_in_range = λ id al h.
      let (r, f) = c.allocated_in_range id al h in
      (r, ground (arith, elem-delete al.port port a.available_ports));
  exclusive = c.exclusive;
  unique = delete-Unique port a.available_ports c.unique;
}
