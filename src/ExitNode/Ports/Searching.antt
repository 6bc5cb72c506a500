-- ===== src/ExitNode/Ports/Searching.antt =====
-- The search for a free port.
use localup.Base.{
  ℕ, zero, suc, ◌+◌, ◌-◌, ◌*◌, min, ◌≡◌, refl, ap, ◌∙◌, ◌≢◌, inl, inr, Bool, true, false, ◌&&◌,
  List, [], ◌∷◌, arith, leb, Bool-cases, nat_eq, list_eq, insert, Text,
}
use localup.ExitNode.Ports.{
  active, PortAllocator, elem, with_available, with_allocated, drop_port, take_port, allocation,
  Search, searching, got, then_search, try_port, try_nearby, nearby, fallback, search_port,
}
use localup.ExitNode.Ports.Invariant.{Unique, IsConsistent, elem-delete, drop_port-IsConsistent}
use localup.ExitNode.Ports.Steps.{take_port-IsConsistent}

module _ (is_port_available : ℕ → ℕ → Bool) (hash : Text → ℕ) (id : Text) where
  -- A search has only dropped free ports.
  abbrev pub IsDropped : PortAllocator → PortAllocator → Type 0
  IsDropped a b =
      IsConsistent b
      × (b ≡ with_available a b.available_ports)
      × ((p : ℕ) → elem p b.available_ports ≡ true → elem p a.available_ports ≡ true)

  -- A search has allocated a port that was free.
  abbrev pub IsGot : PortAllocator → PortAllocator → ℕ → Type 0
  IsGot a b p =
      IsConsistent b
      × (elem p a.available_ports ≡ true)
      × (b
          ≡ with_allocated (with_available a b.available_ports)
              (insert id (allocation p active) a.allocated_ports))

  abbrev pub IsSound : PortAllocator → Search → Type 0
  IsSound a (searching b) = IsDropped a b
  IsSound a (got b p) = IsGot a b p

  IsSound-after : (a b : PortAllocator) (s : Search) → IsDropped a b → IsSound b s → IsSound a s
  IsSound-after a b (searching d) (c, e, sub) (c', e', sub') =
      (c', e' ∙ ap (λ x. with_available x d.available_ports) e, λ p h. sub p (sub' p h))
  IsSound-after a b (got d q) (c, e, sub) (c', free, e') = (
    c',
    sub q free,
    e'
        ∙ ap
            (λ x.
              with_allocated (with_available x d.available_ports)
                (insert id (allocation q active) x.allocated_ports))
            e,
  )

  -- A search goes on from what it left, or ends.
  IsSound-then :
      (a : PortAllocator) (s : Search) (rest : PortAllocator → Search)
      → IsSound a s
      → ((b : PortAllocator) → IsDropped a b → IsSound b (rest b))
      → IsSound a (then_search rest s)
  IsSound-then a (searching b) rest d go = IsSound-after a b (rest b) d (go b d)
  IsSound-then a (got b p) rest d go = d

  pub drop_port-IsDropped :
      (a : PortAllocator) (port : ℕ) → IsConsistent a → IsDropped a (drop_port a port)
  unfolding drop_port
  drop_port-IsDropped a port c = (
    drop_port-IsConsistent a port c,
    refl,
    λ p h. ground (arith, elem-delete p port a.available_ports),
  )

  pub take_port-IsGot :
      (a : PortAllocator) (port : ℕ)
      → IsConsistent a
      → elem port a.available_ports ≡ true
      → IsGot a (take_port a id port) port
  unfolding take_port drop_port
  take_port-IsGot a port c free = (take_port-IsConsistent a id c port free, free, refl)

  try_port-IsSound :
      (attempt : ℕ) (a : PortAllocator) (port : ℕ)
      → IsConsistent a
      → elem port a.available_ports ≡ true
      → IsSound a (try_port is_port_available hash attempt a id port)
  unfolding try_port
  try_port-IsSound attempt a port c free = elim (Bool-cases (is_port_available attempt port)) [
    | inl e ↦ rw e (take_port-IsGot a port c free)
    | inr e ↦ rw e (drop_port-IsDropped a port c)
  ]

  pub stay : (a : PortAllocator) → IsConsistent a → IsDropped a a
  stay a c = (c, refl, λ p h. h)

  try_nearby-IsSound :
      (attempt : ℕ) (a : PortAllocator) (port : ℕ)
      → IsConsistent a
      → IsSound a (try_nearby is_port_available hash attempt a id port)
  unfolding try_nearby
  try_nearby-IsSound attempt a port c =
      elim (Bool-cases
        (leb a.range_start port && leb port a.range_end && elem port a.available_ports)) [
          | inl e ↦ rw e (try_port-IsSound attempt a port c (ground arith))
          | inr e ↦ rw e (stay a c)
        ]

  pub nearby-IsSound :
      (count offset : ℕ) (a : PortAllocator) (preferred : ℕ)
      → IsConsistent a
      → IsSound a (nearby is_port_available hash count offset a id preferred)
  unfolding nearby
  nearby-IsSound zero offset a preferred c = stay a c
  nearby-IsSound (suc count) offset a preferred c =
      IsSound-then a _ _ (try_nearby-IsSound (2 * offset) a (min (preferred + offset) 65535) c)
        (λ b d.
          IsSound-then b _ _ (try_nearby-IsSound (2 * offset + 1) b (preferred - offset) (d.0))
            (λ e d'. nearby-IsSound count (offset + 1) e preferred (d'.0)))

  -- The ports that the fallback goes through are free and different.
  pub fallback-IsSound :
      (attempt : ℕ) (ports : List ℕ) (a : PortAllocator)
      → IsConsistent a
      → Unique ports
      → ((p : ℕ) → elem p ports ≡ true → elem p a.available_ports ≡ true)
      → IsSound a (fallback is_port_available hash attempt ports a id)
  unfolding fallback elem drop_port try_port
  fallback-IsSound attempt [] a c u free = stay a c
  fallback-IsSound attempt (port ∷ ports) a c u free =
      elim (Bool-cases (is_port_available attempt port)) [
        | inl e ↦ rw (e, try_port) (take_port-IsGot a port c (free port (ground arith)))
        | inr e ↦
            let dropped = drop_port-IsDropped a port c in
            rw (e, try_port)
              (IsSound-after a (drop_port a port) _ dropped (
                fallback-IsSound (attempt + 1) ports (drop_port a port) (dropped.0) (u.1)
                  (λ p h. still p h)))
      ]
    where
      clash : {b : Bool} → b ≡ false → b ≡ true → ⊥
      clash e e' = cc

      still : (p : ℕ) → elem p ports ≡ true → elem p (drop_port a port).available_ports ≡ true
      still p h =
          let differ : p ≢ port = λ e. clash (u.0) (rw e at h) in
          elem-delete p port a.available_ports ∙ ground (arith, free p)

  pub search_port-IsSound :
      (a : PortAllocator) (preferred : ℕ)
      → IsConsistent a
      → IsSound a (search_port is_port_available hash a id preferred)
  unfolding search_port
  search_port-IsSound a preferred c = elim (Bool-cases (elem preferred a.available_ports)) [
    | inr e ↦ rw e (rest a (stay a c))
    | inl e ↦ elim (Bool-cases (is_port_available 0 preferred)) [
      | inl f ↦ rw (e, f) (take_port-IsGot a preferred c e)
      | inr f ↦ elim (Bool-cases (is_port_available 1 preferred)) [
        | inl g ↦ rw (e, f, g) (rest a (stay a c))
        | inr g ↦ rw (e, f, g) (rest (drop_port a preferred) (drop_port-IsDropped a preferred c))
      ]
    ]
  ]
    where
      rest :
          (b : PortAllocator)
          → IsDropped a b
          → IsSound a (
              then_search
                (λ b. fallback is_port_available hash 22 b.available_ports b id)
                (nearby is_port_available hash 10 1 b id preferred))
      rest b d = IsSound-after a b _ d (
          IsSound-then b _ _ (nearby-IsSound 10 1 b preferred (d.0))
            (λ e d'. fallback-IsSound 22 e.available_ports e (d'.0) (d'.0.unique) (λ p h. h)))
