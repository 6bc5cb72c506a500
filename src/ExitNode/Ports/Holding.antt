-- ===== src/ExitNode/Ports/Holding.antt =====
-- What single calls of the allocator do to the port of a tunnel.
use localup.Base.{
  ◌≢◌, false, ℕ, ◌+◌, ◌≡◌, sym, ap, ◌∙◌, subst, inl, inr, Bool, Option, none, some, if◌then◌else◌,
  Bool-cases, Option-cases, ◌==◌, ==_iff, nat_eq, list_eq, Map, lookup, insert, lookup-insert,
  lookup-insert_self, Text, Result, ok, err,
}
use localup.ExitNode.Ports.{
  AllocateError, AllocationState, active, reserved, PortAllocation, PortAllocator, allocation,
  allocate, reserve, reactivate, deallocate, port_of, panics, range_size,
}
use localup.ExitNode.Ports.Invariant.{IsConsistent}
use localup.ExitNode.Ports.Calls.{
  IsAllocation, deallocate_lem, allocate_known, allocate-poisoned, allocate-IsAllocation,
}

-- The tunnel has the port, active or reserved.
abbrev pub HasPort : Text → ℕ → PortAllocator → Type 0
HasPort id p a = port_of (lookup id a.allocated_ports) ≡ some p

-- The locks are not poisoned, and the range is not that of all ports, so no allocation poisons them.
abbrev pub IsUsable : PortAllocator → Type 0
IsUsable a = (a.poisoned ≡ false) × (range_size a ≢ 0)

abbrev Entries : Type 0
Entries = Map Text PortAllocation

insert-port :
    (id j : Text) (new : PortAllocation) (m : Entries)
    → port_of (lookup id (insert j new m))
      ≡ (if j == id then some new.port else port_of (lookup id m))
insert-port id j new m = elim (Bool-cases (j == id)) [
  | inl e ↦ rw (lookup-insert j id new m, e)
  | inr e ↦ rw (lookup-insert j id new m, e)
]

-- A write of the port that the tunnel of the entry has keeps every tunnel's port.
insert_same :
    (id j : Text) (al : PortAllocation) (state : AllocationState) (m : Entries)
    → lookup j m ≡ some al
    → port_of (lookup id (insert j (allocation al.port state) m)) ≡ port_of (lookup id m)
insert_same id j al state m own = elim (Bool-cases (j == id)) [
  | inl e ↦
      insert-port id j (allocation al.port state) m
      ∙ rw e (sym (ap port_of (subst (λ k. lookup k m ≡ some al) ((==_iff j id).0 e) own)))
  | inr e ↦ insert-port id j (allocation al.port state) m ∙ rw e
]

-- A write for a tunnel without a port keeps the others' ports.
insert_new :
    (id j : Text) (p : ℕ) (al : PortAllocation) (m : Entries)
    → lookup j m ≡ none
    → port_of (lookup id m) ≡ some p
    → port_of (lookup id (insert j al m)) ≡ some p
insert_new id j p al m fresh h = elim (Bool-cases (j == id)) [
  | inl e ↦
      absurd
        (nothing (ap port_of (sym (subst (λ k. lookup k m ≡ none) ((==_iff j id).0 e) fresh)) ∙ h))
  | inr e ↦ insert-port id j al m ∙ rw e h
]
  where
    nothing : ◌≡◌ {A = Option ℕ} none (some p) → ⊥
    nothing e = cc

module _ (is_port_available : ℕ → ℕ → Bool) (hash : Text → ℕ) where
  new-HasPort :
      (a : PortAllocator) (id j : Text) (p : ℕ) (r : PortAllocator × Result AllocateError ℕ)
      → IsAllocation is_port_available hash a j r
      → lookup j a.allocated_ports ≡ none
      → HasPort id p a
      → HasPort id p r.0
  new-HasPort a id j p (b, err e) (inl (c, same, sub)) fresh h = subst (HasPort id p) (sym same) h
  new-HasPort a id j p (b, err e) (inr (same, zero_size)) fresh h =
      subst (HasPort id p) (sym same) h
  new-HasPort a id j p (b, ok q) (c, free, same) fresh h =
      subst (λ x. port_of (lookup id x.allocated_ports) ≡ some p) (sym same)
        (insert_new id j p (allocation q active) a.allocated_ports fresh h)

  reactivate-HasPort :
      (a : PortAllocator) (id j : Text) (p : ℕ) (al : PortAllocation) (state : AllocationState)
      → lookup j a.allocated_ports ≡ some al
      → HasPort id p a
      → HasPort id p (reactivate is_port_available hash a j al.port state)
  reactivate-HasPort a id j p al active own h = h
  reactivate-HasPort a id j p al (reserved until) own h =
      insert_same id j al active a.allocated_ports own ∙ h

  -- An allocation takes no tunnel's port away.
  pub allocate-HasPort :
      (a : PortAllocator) (id j : Text) (p : ℕ) (requested : Option ℕ)
      → IsConsistent a
      → HasPort id p a
      → HasPort id p (allocate is_port_available hash a j requested).0
  allocate-HasPort a id j p requested c h = elim (Bool-cases a.poisoned) [
    | inl bad ↦
        subst (λ r. HasPort id p r.0)
          (sym (allocate-poisoned is_port_available hash a j requested bad)) h
    | inr sane ↦ elim (Option-cases (lookup j a.allocated_ports)) [
      | inl e ↦
          new-HasPort a id j p _
            (allocate-IsAllocation is_port_available hash a j requested c sane e) e h
      | inr (al, e) ↦
          subst (λ r. HasPort id p r.0)
            (sym (allocate_known is_port_available hash a j requested al sane e))
            (reactivate-HasPort a id j p al al.state e h)
    ]
  ]

  -- A tunnel with a port gets the same port again, whatever port it asks for.
  pub allocate_again :
      (a : PortAllocator) (id : Text) (p : ℕ) (requested : Option ℕ)
      → a.poisoned ≡ false
      → HasPort id p a
      → (allocate is_port_available hash a id requested).1 ≡ ok p
  allocate_again a id p requested sane h = elim (Option-cases (lookup id a.allocated_ports)) [
    | inl e ↦ absurd (nothing (ap port_of (sym e) ∙ h))
    | inr (al, e) ↦
        ap (λ r. r.1) (allocate_known is_port_available hash a id requested al sane e)
        ∙ ap ok (same (ap port_of (sym e) ∙ h))
  ]
    where
      nothing : ◌≡◌ {A = Option ℕ} none (some p) → ⊥
      nothing e = cc

      same : {q : ℕ} → some q ≡ some p → q ≡ p
      same e = cc

  -- After an allocation that succeeds, the locks are not poisoned.
  pub allocated_sane :
      (a : PortAllocator) (id : Text) (p : ℕ) (requested : Option ℕ)
      → (allocate is_port_available hash a id requested).1 ≡ ok p
      → a.poisoned ≡ false
  allocated_sane a id p requested h = elim (Bool-cases a.poisoned) [
    | inl bad ↦ absurd (
        panicked
          (ap (λ r. r.1) (sym (allocate-poisoned is_port_available hash a id requested bad)) ∙ h))
    | inr sane ↦ sane
  ]
    where
      panicked : ◌≡◌ {A = Result AllocateError ℕ} (err panics) (ok p) → ⊥
      panicked e = cc

  -- The tunnel of an allocation that succeeds
  abbrev IsActive : Text → ℕ → PortAllocator × Result AllocateError ℕ → Type 0
  IsActive id p r =
      r.1 ≡ ok p
      → (r.0.poisoned ≡ false) × (lookup id r.0.allocated_ports ≡ some (allocation p active))

  reactivated-IsActive :
      (a : PortAllocator) (id : Text) (p q : ℕ) (state : AllocationState)
      → a.poisoned ≡ false
      → lookup id a.allocated_ports ≡ some (allocation q state)
      → IsActive id p (reactivate is_port_available hash a id q state, ok q)
  reactivated-IsActive a id p q active sane own h =
      (sane, own ∙ ap (λ k. some (allocation k active)) (same_port h))
    where
      same_port : ◌≡◌ {A = Result AllocateError ℕ} (ok q) (ok p) → q ≡ p
      same_port e = cc
  reactivated-IsActive a id p q (reserved until) sane own h = (
    sane,
    lookup-insert_self id (allocation q active) a.allocated_ports
        ∙ ap (λ k. some (allocation k active)) (same_port h),
  )
    where
      same_port : ◌≡◌ {A = Result AllocateError ℕ} (ok q) (ok p) → q ≡ p
      same_port e = cc

  got-IsActive :
      (a : PortAllocator) (id : Text) (p : ℕ) (r : PortAllocator × Result AllocateError ℕ)
      → a.poisoned ≡ false
      → IsAllocation is_port_available hash a id r
      → IsActive id p r
  got-IsActive a id p (b, err e) sane d bad = absurd (no_port bad)
    where
      no_port : ◌≡◌ {A = Result AllocateError ℕ} (err e) (ok p) → ⊥
      no_port x = cc
  got-IsActive a id p (b, ok q) sane (c, free, same) h = (
    ap (λ x. x.poisoned) same ∙ sane,
    ap (λ x. lookup id x.allocated_ports) same
        ∙ lookup-insert_self id (allocation q active) a.allocated_ports
        ∙ ap (λ k. some (allocation k active)) (same_port h),
  )
    where
      same_port : ◌≡◌ {A = Result AllocateError ℕ} (ok q) (ok p) → q ≡ p
      same_port e = cc

  -- What is allocated is the tunnel's active port from then on.
  pub allocate-IsActive :
      (a : PortAllocator) (id : Text) (p : ℕ) (requested : Option ℕ)
      → IsConsistent a
      → (allocate is_port_available hash a id requested).1 ≡ ok p
      → ((allocate is_port_available hash a id requested).0.poisoned ≡ false)
        × (lookup id (allocate is_port_available hash a id requested).0.allocated_ports
            ≡ some (allocation p active))
  allocate-IsActive a id p requested c h =
      let sane = allocated_sane a id p requested h in
      elim (Option-cases (lookup id a.allocated_ports)) [
        | inl e ↦
            got-IsActive a id p _ sane
              (allocate-IsAllocation is_port_available hash a id requested c sane e) h
        | inr (al, e) ↦
            subst (IsActive id p)
              (sym (allocate_known is_port_available hash a id requested al sane e))
              (reactivated-IsActive a id p al.port al.state sane e) h
      ]

  new-IsUsable :
      (a : PortAllocator) (id : Text) (r : PortAllocator × Result AllocateError ℕ)
      → IsAllocation is_port_available hash a id r
      → IsUsable a
      → IsUsable r.0
  unfolding range_size
  new-IsUsable a id (b, err e) (inl (c, same, sub)) u = subst IsUsable (sym same) u
  new-IsUsable a id (b, err e) (inr (same, zero_size)) u = absurd (u.1 zero_size)
  new-IsUsable a id (b, ok p) (c, free, same) u = subst IsUsable (sym same) u

  reactivate-IsUsable :
      (a : PortAllocator) (id : Text) (p : ℕ) (state : AllocationState)
      → IsUsable a
      → IsUsable (reactivate is_port_available hash a id p state)
  unfolding range_size
  reactivate-IsUsable a id p active u = u
  reactivate-IsUsable a id p (reserved until) u = u

  pub allocate-IsUsable :
      (a : PortAllocator) (id : Text) (requested : Option ℕ)
      → IsConsistent a
      → IsUsable a
      → IsUsable (allocate is_port_available hash a id requested).0
  allocate-IsUsable a id requested c u = elim (Option-cases (lookup id a.allocated_ports)) [
    | inl e ↦
        new-IsUsable a id _ (allocate-IsAllocation is_port_available hash a id requested c u.0 e) u
    | inr (al, e) ↦
        subst (λ r. IsUsable r.0)
          (sym (allocate_known is_port_available hash a id requested al u.0 e))
          (reactivate-IsUsable a id al.port al.state u)
  ]

reserve-HasPort :
    (now : ℕ) (a : PortAllocator) (id j : Text) (p : ℕ) (al : PortAllocation)
    (state : AllocationState)
    → lookup j a.allocated_ports ≡ some al
    → HasPort id p a
    → HasPort id p (reserve now a j al.port state)
reserve-HasPort now a id j p al active own h =
    insert_same id j al (reserved (now + a.reservation_ttl_seconds)) a.allocated_ports own ∙ h
reserve-HasPort now a id j p al (reserved until) own h = h

pub deallocate-HasPort :
    (now : ℕ) (a : PortAllocator) (id j : Text) (p : ℕ) (b : PortAllocator)
    → deallocate now a j ≡ some b
    → HasPort id p a
    → HasPort id p b
deallocate-HasPort now a id j p b d h =
    let (sane, cases) = deallocate_lem now a j b d in
    elim cases [
      | inl (e, same) ↦ subst (HasPort id p) same h
      | inr (al, e, same) ↦ subst (HasPort id p) same (reserve-HasPort now a id j p al al.state e h)
    ]

-- An active port is reserved for the lifetime of reservations.
pub deallocate-active :
    (now : ℕ) (a : PortAllocator) (id : Text) (p : ℕ)
    → a.poisoned ≡ false
    → lookup id a.allocated_ports ≡ some (allocation p active)
    → deallocate now a id ≡ some (reserve now a id p active)
unfolding deallocate
deallocate-active now a id p sane own = simp (sane, own)

reserve-IsUsable :
    (now : ℕ) (a : PortAllocator) (id : Text) (p : ℕ) (state : AllocationState)
    → IsUsable a
    → IsUsable (reserve now a id p state)
unfolding range_size
reserve-IsUsable now a id p active u = u
reserve-IsUsable now a id p (reserved until) u = u

pub deallocate-IsUsable :
    (now : ℕ) (a : PortAllocator) (id : Text) (b : PortAllocator)
    → deallocate now a id ≡ some b
    → IsUsable a
    → IsUsable b
deallocate-IsUsable now a id b d u =
    let (sane, cases) = deallocate_lem now a id b d in
    elim cases [
      | inl (e, same) ↦ subst IsUsable same u
      | inr (al, e, same) ↦ subst IsUsable same (reserve-IsUsable now a id al.port al.state u)
    ]
