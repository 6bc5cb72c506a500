-- ===== src/ExitNode/Ports/Calls.antt =====
-- The calls of the allocator, and sequences of them.
use localup.Base.{
  refl, sym, subst, false, true, eqb, eqb_iff, ◌⊎◌, if◌then◌else◌, unwrap_or, ℕ, ◌+◌, ◌≡◌, inl, inr,
  Bool, Option, none, some, List, [], ◌∷◌, Bool-cases, Option-cases, nat_eq, list_eq, lookup, Text,
  Result, ok, err,
}
use localup.ExitNode.Ports.{
  panics, poison, range_size, AllocateError, AllocationState, active, reserved, PortAllocation,
  PortAllocator, elem, release, Search, searching, got, allocate_requested, found, from_preferred,
  allocate_new, hash_to_port, reactivate, allocate, reserve, deallocate, release_all, expired_ids,
  cleanup_expired, new,
}
use localup.ExitNode.Ports.Invariant.{IsConsistent, new-IsConsistent}
use localup.ExitNode.Ports.Steps.{set_state-IsConsistent, release-IsConsistent}
use localup.ExitNode.Ports.Searching.{
  IsDropped, IsGot, IsSound, stay, take_port-IsGot, drop_port-IsDropped, search_port-IsSound,
}

poison-IsConsistent : (a : PortAllocator) → IsConsistent a → IsConsistent (poison a)
poison-IsConsistent a c = record {
  free_in_range = c.free_in_range;
  allocated_in_range = c.allocated_in_range;
  exclusive = c.exclusive;
  unique = c.unique;
}

module _ (is_port_available : ℕ → ℕ → Bool) (hash : Text → ℕ) where
  -- What `allocate` did for a tunnel without a port: it changed the free ports only and reported an error,
  -- it panicked, as it does on the range of all ports, or it gave the tunnel a port that was free.
  abbrev pub IsAllocation : PortAllocator → Text → PortAllocator × Result AllocateError ℕ → Type 0
  IsAllocation a id (b, err e) =
      IsDropped is_port_available hash id a b ⊎ ((b ≡ poison a) × (range_size a ≡ 0))
  IsAllocation a id (b, ok p) = IsGot is_port_available hash id a b p

  requested-IsAllocation :
      (a : PortAllocator) (id : Text) (port : ℕ)
      → IsConsistent a
      → IsAllocation a id (allocate_requested is_port_available hash a id port)
  unfolding allocate_requested
  requested-IsAllocation a id port c = elim (Bool-cases (elem port a.available_ports)) [
    | inr e ↦ rw e (inl (stay is_port_available hash id a c))
    | inl e ↦ elim (Bool-cases (is_port_available 0 port)) [
      | inl f ↦ rw (e, f) (take_port-IsGot is_port_available hash id a port c e)
      | inr f ↦ elim (Bool-cases (is_port_available 1 port)) [
        | inl g ↦ rw (e, f, g) (inl (stay is_port_available hash id a c))
        | inr g ↦ rw (e, f, g) (inl (drop_port-IsDropped is_port_available hash id a port c))
      ]
    ]
  ]

  found-IsAllocation :
      (a : PortAllocator) (id : Text) (s : Search)
      → IsSound is_port_available hash id a s
      → IsAllocation a id (found is_port_available hash s)
  found-IsAllocation a id (searching b) d = inl d
  found-IsAllocation a id (got b p) d = d

  preferred-IsAllocation :
      (a : PortAllocator) (id : Text)
      → IsConsistent a
      → IsAllocation a id
          (from_preferred is_port_available hash a id (hash_to_port is_port_available hash a id))
  unfolding hash_to_port
  preferred-IsAllocation a id c = elim (Bool-cases (eqb (range_size a) 0)) [
    | inl e ↦ rw e (inr (refl, (eqb_iff (range_size a) 0).0 e))
    | inr e ↦ rw e (found-IsAllocation a id _ (search_port-IsSound is_port_available hash id a _ c))
  ]

  new-IsAllocation :
      (a : PortAllocator) (id : Text) (requested : Option ℕ)
      → IsConsistent a
      → IsAllocation a id (allocate_new is_port_available hash a id requested)
  new-IsAllocation a id none c = preferred-IsAllocation a id c
  new-IsAllocation a id (some p) c = requested-IsAllocation a id p c

  reactivate-IsConsistent :
      (a : PortAllocator) (id : Text) (al : PortAllocation) (state : AllocationState)
      → IsConsistent a
      → lookup id a.allocated_ports ≡ some al
      → IsConsistent (reactivate is_port_available hash a id al.port state)
  reactivate-IsConsistent a id al active c e = c
  reactivate-IsConsistent a id al (reserved until) c e = set_state-IsConsistent a id c al active e

  pub allocate-new :
      (a : PortAllocator) (id : Text) (requested : Option ℕ)
      → a.poisoned ≡ false
      → lookup id a.allocated_ports ≡ none
      → allocate is_port_available hash a id requested
        ≡ allocate_new is_port_available hash a id requested
  unfolding allocate
  allocate-new a id requested sane e = simp (sane, e)

  pub allocate_known :
      (a : PortAllocator) (id : Text) (requested : Option ℕ) (al : PortAllocation)
      → a.poisoned ≡ false
      → lookup id a.allocated_ports ≡ some al
      → allocate is_port_available hash a id requested
        ≡ (reactivate is_port_available hash a id al.port al.state, ok al.port)
  unfolding allocate
  allocate_known a id requested al sane e = simp (sane, e)

  pub allocate-poisoned :
      (a : PortAllocator) (id : Text) (requested : Option ℕ)
      → a.poisoned ≡ true
      → allocate is_port_available hash a id requested ≡ (a, err panics)
  unfolding allocate
  allocate-poisoned a id requested bad = simp bad

  -- A tunnel without a port gets one that was free, or none and an error.
  pub allocate-IsAllocation :
      (a : PortAllocator) (id : Text) (requested : Option ℕ)
      → IsConsistent a
      → a.poisoned ≡ false
      → lookup id a.allocated_ports ≡ none
      → IsAllocation a id (allocate is_port_available hash a id requested)
  allocate-IsAllocation a id requested c sane e =
      subst (IsAllocation a id) (sym (allocate-new a id requested sane e))
        (new-IsAllocation a id requested c)

  IsConsistent-of :
      (a : PortAllocator) (id : Text)
      → IsConsistent a
      → (r : PortAllocator × Result AllocateError ℕ) → IsAllocation a id r
      → IsConsistent r.0
  IsConsistent-of a id c (b, err e) (inl d) = d.0
  IsConsistent-of a id c (b, err e) (inr (same, zero_size)) =
      subst IsConsistent (sym same) (poison-IsConsistent a c)
  IsConsistent-of a id c (b, ok p) d = d.0

  pub allocate-IsConsistent :
      (a : PortAllocator) (id : Text) (requested : Option ℕ)
      → IsConsistent a
      → IsConsistent (allocate is_port_available hash a id requested).0
  allocate-IsConsistent a id requested c = elim (Bool-cases a.poisoned) [
    | inl bad ↦ subst (λ r. IsConsistent r.0) (sym (allocate-poisoned a id requested bad)) c
    | inr sane ↦ elim (Option-cases (lookup id a.allocated_ports)) [
      | inl e ↦ IsConsistent-of a id c _ (allocate-IsAllocation a id requested c sane e)
      | inr (al, e) ↦
          subst (λ r. IsConsistent r.0) (sym (allocate_known a id requested al sane e))
            (reactivate-IsConsistent a id al al.state c e)
    ]
  ]

reserve-IsConsistent :
    (now : ℕ) (a : PortAllocator) (id : Text) (al : PortAllocation) (state : AllocationState)
    → IsConsistent a
    → lookup id a.allocated_ports ≡ some al
    → IsConsistent (reserve now a id al.port state)
reserve-IsConsistent now a id al active c e =
    set_state-IsConsistent a id c al (reserved (now + a.reservation_ttl_seconds)) e
reserve-IsConsistent now a id al (reserved until) c e = c

-- What a deallocation that does not panic leaves.
pub deallocate_lem :
    (now : ℕ) (a : PortAllocator) (id : Text) (b : PortAllocator)
    → deallocate now a id ≡ some b
    → (a.poisoned ≡ false)
      × (((lookup id a.allocated_ports ≡ none) × (a ≡ b))
          ⊎ ((al : PortAllocation) × (lookup id a.allocated_ports ≡ some al)
              × (reserve now a id al.port al.state ≡ b)))
unfolding deallocate
deallocate_lem now a id b h = elim (Bool-cases a.poisoned) [
  | inl bad ↦ absurd (panicked (simp bad at h))
  | inr sane ↦ elim (Option-cases (lookup id a.allocated_ports)) [
    | inl e ↦ (sane, inl (e, same (simp (sane, e) at h)))
    | inr (al, e) ↦ (sane, inr (al, e, same (simp (sane, e) at h)))
  ]
]
  where
    panicked : ◌≡◌ {A = Option PortAllocator} none (some b) → ⊥
    panicked x = cc

    same : {c : PortAllocator} → ◌≡◌ {A = Option PortAllocator} (some c) (some b) → c ≡ b
    same x = cc

pub deallocate-IsConsistent :
    (now : ℕ) (a : PortAllocator) (id : Text)
    → IsConsistent a
    → (b : PortAllocator) → deallocate now a id ≡ some b
    → IsConsistent b
deallocate-IsConsistent now a id c b h =
    let (sane, cases) = deallocate_lem now a id b h in
    elim cases [
      | inl (e, same) ↦ subst IsConsistent same c
      | inr (al, e, same) ↦ subst IsConsistent same (reserve-IsConsistent now a id al al.state c e)
    ]

release_all-IsConsistent :
    (ids : List Text) (a : PortAllocator) → IsConsistent a → IsConsistent (release_all ids a)
release_all-IsConsistent [] a c = c
release_all-IsConsistent (id ∷ ids) a c =
    release_all-IsConsistent ids (release a id) (release-IsConsistent a id c)

pub cleanup_expired-IsConsistent :
    (now : ℕ) (a : PortAllocator)
    → IsConsistent a
    → IsConsistent (unwrap_or a (cleanup_expired now a))
unfolding cleanup_expired
cleanup_expired-IsConsistent now a c = elim (Bool-cases a.poisoned) [
  | inl bad ↦
      subst
        (λ b. IsConsistent (
          unwrap_or a
            (if b then none else some (release_all (expired_ids now a.allocated_ports) a))))
        (sym bad) c
  | inr sane ↦
      subst
        (λ b. IsConsistent (
          unwrap_or a
            (if b then none else some (release_all (expired_ids now a.allocated_ports) a))))
        (sym sane) (release_all-IsConsistent (expired_ids now a.allocated_ports) a c)
]

-- The calls of the exit node, each with its time and what the operating system answers. A call that panics
-- ends its own task only.
pub data Call : Type 0 where
  allocates : (ℕ → ℕ → Bool) → Text → Option ℕ → Call
  deallocates : ℕ → Text → Call
  cleans_up : ℕ → Call

unfoldable pub step : (Text → ℕ) → PortAllocator → Call → PortAllocator
step hash a (allocates is_port_available id requested) =
    (allocate is_port_available hash a id requested).0
step hash a (deallocates now id) = unwrap_or a (deallocate now a id)
step hash a (cleans_up now) = unwrap_or a (cleanup_expired now a)

unfoldable pub run : (Text → ℕ) → PortAllocator → List Call → PortAllocator
run hash a [] = a
run hash a (call ∷ calls) = run hash (step hash a call) calls

step-IsConsistent :
    (hash : Text → ℕ) (a : PortAllocator) (call : Call)
    → IsConsistent a
    → IsConsistent (step hash a call)
unfolding step
step-IsConsistent hash a (allocates o id requested) c =
    allocate-IsConsistent o hash a id requested c
step-IsConsistent hash a (deallocates now id) c = elim (Option-cases (deallocate now a id)) [
  | inl e ↦ rw (e, step) c
  | inr (b, e) ↦ rw (e, step) (deallocate-IsConsistent now a id c b e)
]
step-IsConsistent hash a (cleans_up now) c = cleanup_expired-IsConsistent now a c

run-IsConsistent :
    (hash : Text → ℕ) (a : PortAllocator) (calls : List Call)
    → IsConsistent a
    → IsConsistent (run hash a calls)
unfolding run
run-IsConsistent hash a [] c = c
run-IsConsistent hash a (call ∷ calls) c =
    run-IsConsistent hash (step hash a call) calls (step-IsConsistent hash a call c)

-- After any calls on a new allocator, every allocated port is in the range and not free, every free port
-- is in the range, and no two tunnels have the same port.
pub run-new-IsConsistent :
    (hash : Text → ℕ) (range_start range_end : ℕ) (calls : List Call)
    → IsConsistent (run hash (new range_start range_end) calls)
unfolding new
run-new-IsConsistent hash first last calls =
    run-IsConsistent hash (new first last) calls (new-IsConsistent first last 300)
