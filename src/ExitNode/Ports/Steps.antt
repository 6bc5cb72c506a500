-- ===== src/ExitNode/Ports/Steps.antt =====
-- The writes of the allocator keep its invariant.
use localup.Base.{
  ℕ, ◌≡◌, refl, sym, ap, ◌∙◌, subst, ◌≢◌, ◌⊎◌, inl, inr, Bool, true, false, Option, none, some, ◌∷◌,
  arith, eqb, eqb_iff, Bool-cases, Option-cases, ◌==◌, ==_iff, nat_eq, list_eq, Map, lookup, remove,
  insert, lookup-remove, lookup-insert, Text,
}
use localup.ExitNode.Ports.{
  AllocationState, active, PortAllocation, PortAllocator, elem, delete, with_available,
  with_allocated, drop_port, take_port, allocation, release,
}
use localup.ExitNode.Ports.Invariant.{InRange, IsConsistent, elem-delete, delete-Unique}

clash : {b : Bool} → b ≡ false → b ≡ true → ⊥
clash e e' = cc

some-injective : {x y : PortAllocation} → some x ≡ some y → x ≡ y
some-injective e = cc

nothing : {al : PortAllocation} → ◌≡◌ {A = Option PortAllocation} none (some al) → ⊥
nothing e = cc

-- What an entry of the map is after an insertion: the new one, or an old one of another identifier.
entry :
    (m : Map Text PortAllocation) (id : Text) (new : PortAllocation) (id' : Text)
    (al : PortAllocation)
    → lookup id' (insert id new m) ≡ some al
    → ((id ≡ id') × (new ≡ al)) ⊎ ((id ≢ id') × (lookup id' m ≡ some al))
entry m id new id' al h = elim (Bool-cases (id == id')) [
  | inl e ↦ inl ((==_iff id id').0 e, some-injective (sym (lookup-insert id id' new m ∙ rw e) ∙ h))
  | inr e ↦
      inr (λ same. clash e ((==_iff id id').1 same), sym (lookup-insert id id' new m ∙ rw e) ∙ h)
]

module _ (a : PortAllocator) (id : Text) (c : IsConsistent a) where
  pub take_port-IsConsistent :
      (port : ℕ) → elem port a.available_ports ≡ true → IsConsistent (take_port a id port)
  unfolding take_port drop_port
  take_port-IsConsistent port free = record {
    free_in_range = λ p h. c.free_in_range p (ground (arith, elem-delete p port a.available_ports));
    allocated_in_range = λ i al h.
        elim (entry a.allocated_ports id (allocation port active) i al h) [
          | inl (e, e') ↦
              subst (λ p. InRange a p × (elem p (delete port a.available_ports) ≡ false))
                (ap (λ x. x.port) e')
                (c.free_in_range port free, ground (arith, elem-delete port port a.available_ports))
          | inr (e, old) ↦
              let (r, f) = c.allocated_in_range i al old in
              (r, ground (arith, elem-delete al.port port a.available_ports))
        ];
    exclusive = λ i j al al' h h' same.
        elim (entry a.allocated_ports id (allocation port active) i al h) [
          | inl (e, e') ↦ elim (entry a.allocated_ports id (allocation port active) j al' h') [
            | inl (e₁, e₁') ↦ sym e ∙ e₁
            | inr (e₁, old) ↦ absurd (taken j al' old (sym (ap (λ x. x.port) e' ∙ same)))
          ]
          | inr (e, old) ↦ elim (entry a.allocated_ports id (allocation port active) j al' h') [
            | inl (e₁, e₁') ↦ absurd (taken i al old (same ∙ sym (ap (λ x. x.port) e₁')))
            | inr (e₁, old') ↦ c.exclusive i j al al' old old' same
          ]
        ];
    unique = delete-Unique port a.available_ports c.unique;
  }
    where
      taken :
          (i : Text) (al : PortAllocation) → lookup i a.allocated_ports ≡ some al → al.port ≢ port
      taken i al h e = clash ((c.allocated_in_range i al h).1) (rw e free)

  -- A new state for the port that the tunnel has
  pub set_state-IsConsistent :
      (al : PortAllocation) (state : AllocationState)
      → lookup id a.allocated_ports ≡ some al
      → IsConsistent (with_allocated a (insert id (allocation al.port state) a.allocated_ports))
  set_state-IsConsistent al state own = record {
    free_in_range = c.free_in_range;
    allocated_in_range = λ i al' h.
        let (old, h', e) = before i al' h in
        subst (λ p. InRange a p × (elem p a.available_ports ≡ false)) e
          (c.allocated_in_range i old h');
    exclusive = λ i j al₁ al₂ h₁ h₂ same.
        let (old, h', e) = before i al₁ h₁ in
        let (old', h'', e') = before j al₂ h₂ in
        c.exclusive i j old old' h' h'' (e ∙ same ∙ sym e');
    unique = c.unique;
  }
    where
      before :
          (i : Text) (al' : PortAllocation)
          → lookup i (insert id (allocation al.port state) a.allocated_ports) ≡ some al'
          → (old : PortAllocation) × (lookup i a.allocated_ports ≡ some old) × (old.port ≡ al'.port)
      before i al' h = elim (entry a.allocated_ports id (allocation al.port state) i al' h) [
        | inl (e, e') ↦
            (al, subst (λ k. lookup k a.allocated_ports ≡ some al) e own, ap (λ x. x.port) e')
        | inr (e, old) ↦ (al', old, refl)
      ]

  pub release-IsConsistent : IsConsistent (release a id)
  unfolding release elem
  release-IsConsistent = elim (Option-cases (lookup id a.allocated_ports)) [
    | inl e ↦ rw (e, release) c
    | inr (al, e) ↦ rw (e, release) (released al e)
  ]
    where
      left :
          (i : Text) (al : PortAllocation)
          → lookup i (remove id a.allocated_ports) ≡ some al
          → (id ≢ i) × (lookup i a.allocated_ports ≡ some al)
      left i al h = elim (Bool-cases (id == i)) [
        | inl e ↦ absurd (nothing (sym (lookup-remove id i a.allocated_ports ∙ rw e) ∙ h))
        | inr e ↦ (
          λ same. clash e ((==_iff id i).1 same),
          sym (lookup-remove id i a.allocated_ports ∙ rw e) ∙ h,
        )
      ]

      released :
          (al : PortAllocation)
          → lookup id a.allocated_ports ≡ some al
          → IsConsistent (
              with_allocated
                (with_available a (al.port ∷ delete al.port a.available_ports))
                (remove id a.allocated_ports))
      released al own = record {
        free_in_range = λ p h. elim (Bool-cases (eqb al.port p)) [
          | inl e ↦ subst (InRange a) ((eqb_iff al.port p).0 e) ((c.allocated_in_range id al own).0)
          | inr e ↦ c.free_in_range p (ground (arith, elem-delete p al.port a.available_ports))
        ];
        allocated_in_range = λ i al' h.
            let (differ, old) = left i al' h in
            let (r, f) = c.allocated_in_range i al' old in
            let other : al'.port ≢ al.port =
              λ e. differ (c.exclusive id i al al' own old (sym e)) in
            (r, ground (arith, elem-delete al'.port al.port a.available_ports));
        exclusive = λ i j al₁ al₂ h₁ h₂ same.
            c.exclusive i j al₁ al₂ (left i al₁ h₁).1 (left j al₂ h₂).1 same;
        unique = (
          ground (arith, elem-delete al.port al.port a.available_ports),
          delete-Unique al.port a.available_ports c.unique,
        );
      }
