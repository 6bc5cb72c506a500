-- ===== src/ExitNode/Ports/Tenure.antt =====
-- How long a tunnel keeps its port.
use localup.Base.{
  unwrap_or, ◌≢◌, ℕ, ◌≡◌, sym, ap, subst, inl, inr, Bool, Option, List, [], ◌∷◌, Option-cases, All,
  nat_eq, list_eq, Text, ok,
}
use localup.ExitNode.Ports.{PortAllocator, allocate, deallocate, port_of, range_size}
use localup.ExitNode.Ports.Invariant.{IsConsistent}
use localup.ExitNode.Ports.Calls.{
  Call, allocates, deallocates, cleans_up, run, step, deallocate-IsConsistent,
  allocate-IsConsistent,
}
use localup.ExitNode.Ports.Holding.{
  HasPort, IsUsable, allocate-HasPort, allocate_again, allocated_sane, allocate-IsActive,
  allocate-IsUsable, deallocate-HasPort, deallocate-IsUsable,
}

-- The calls other than the cleanup of expired reservations
abbrev pub IsNoCleanup : Call → Type 0
IsNoCleanup (cleans_up now) = ⊥
IsNoCleanup _ = Unit

run-HasPort :
    (hash : Text → ℕ) (a : PortAllocator) (calls : List Call) (id : Text) (p : ℕ)
    → All IsNoCleanup calls
    → IsConsistent a
    → IsUsable a
    → HasPort id p a
    → IsUsable (run hash a calls) × HasPort id p (run hash a calls)
unfolding run step
run-HasPort hash a [] id p n c u h = (u, h)
run-HasPort hash a (allocates o j requested ∷ calls) id p n c u h =
    run-HasPort hash (allocate o hash a j requested).0 calls id p (n.1)
      (allocate-IsConsistent o hash a j requested c) (allocate-IsUsable o hash a j requested c u)
      (allocate-HasPort o hash a id j p requested c h)
run-HasPort hash a (deallocates now j ∷ calls) id p n c u h =
    elim (Option-cases (deallocate now a j)) [
      | inl e ↦
          subst (λ x. IsUsable x × HasPort id p x)
            (ap (λ o. run hash (unwrap_or a o) calls) (sym e))
            (run-HasPort hash a calls id p n.1 c u h)
      | inr (b, e) ↦
          subst (λ x. IsUsable x × HasPort id p x)
            (ap (λ o. run hash (unwrap_or a o) calls) (sym e))
            (run-HasPort hash b calls id p (n.1) (deallocate-IsConsistent now a j c b e)
              (deallocate-IsUsable now a j b e u) (deallocate-HasPort now a id j p b e h))
    ]
run-HasPort hash a (cleans_up now ∷ calls) id p n c u h = absurd (n.0)

-- A tunnel that was given a port by a consistent allocator is given the same port again, whatever port it asks for then, after any
-- calls but the cleanup of expired reservations, its own deallocation included, if the range is not that of
-- all 65536 ports, whose size wraps to 0 in the machine's arithmetic.
pub allocate-run :
    (is_port_available later : ℕ → ℕ → Bool) (hash : Text → ℕ) (a : PortAllocator) (id : Text)
    (p : ℕ) (requested requested' : Option ℕ) (calls : List Call)
    → IsConsistent a
    → range_size a ≢ 0
    → (allocate is_port_available hash a id requested).1 ≡ ok p
    → All IsNoCleanup calls
    → (allocate later hash
        (run hash (allocate is_port_available hash a id requested).0 calls)
        id
        requested').1
      ≡ ok p
allocate-run o later hash a id p requested requested' calls c sized h n =
    let b = (allocate o hash a id requested).0 in
    let usable =
      allocate-IsUsable o hash a id requested c (allocated_sane o hash a id p requested h, sized) in
    let has = ap port_of (allocate-IsActive o hash a id p requested c h).1 in
    let (still, kept) =
      run-HasPort hash b calls id p n (allocate-IsConsistent o hash a id requested c) usable has in
    allocate_again later hash (run hash b calls) id p requested' still.0 kept
