-- ===== src/Proto/Mux/Streams.antt =====
-- Sequences of calls: an identifier is handed out once until its stream is removed.
use localup.Base.{
  ℕ, zero, suc, ◌≤◌, ◌<◌, ◌≡◌, refl, sym, ap, ◌∙◌, subst, ◌≢◌, ◌⊎◌, inl, inr, Bool, true, false,
  Option, none, some, arith, eqb, Bool-cases, nat_eq, list_eq, Map, remove, insert, contains_key,
  lookup-remove, lookup-insert, lookup-insert_self, Result, ok, err,
}
use localup.Base.Words.{word_size}
use localup.Proto.Mux.{
  MuxError, no_available_stream_ids, StreamState, opened, closed, Multiplexer, allocate_loop,
  allocate_stream, register_stream, close_stream, remove_stream,
}
use localup.Proto.Mux.Allocation.{
  mux, after, IsAllocated, round-control, round-vacant, round-full, round-taken,
}

-- How a search that has ended ended.
abbrev pub IsOutcome : Map ℕ StreamState → Multiplexer → Result MuxError ℕ → Type 0
IsOutcome streams m' result =
    ((id : ℕ) × (result ≡ ok id)
      × (1 ≤ id)
      × (id < word_size)
      × (contains_key id streams ≡ false)
      × (m' ≡ mux (after id) (insert id opened streams)))
    ⊎ ((result ≡ err no_available_stream_ids)
        × (m'.streams ≡ streams)
        × (m'.next_stream_id < word_size))

abbrev Found : Type 0
Found = Multiplexer × Result MuxError ℕ

some-injective : {x y : Found} → some x ≡ some y → x ≡ y
some-injective e = cc

no_result : (x : Found) → ◌≡◌ {A = Option Found} none (some x) → ⊥
no_result x e = cc

allocate_loop-IsOutcome :
    (fuel start next : ℕ) (streams : Map ℕ StreamState) (found : Found)
    → next < word_size
    → allocate_loop fuel start (mux next streams) ≡ some found
    → IsOutcome streams found.0 found.1
unfolding allocate_loop
allocate_loop-IsOutcome zero start next streams found n h = absurd (no_result found h)
allocate_loop-IsOutcome (suc fuel) start next streams found n h = elim (Bool-cases (eqb next 0)) [
  | inl z ↦
      allocate_loop-IsOutcome fuel start 1 streams found (omega arith)
        (sym (round-control fuel start next streams z) ∙ h)
  | inr z ↦ elim (Bool-cases (contains_key next streams)) [
    | inr v ↦
        let e = some-injective (sym (round-vacant fuel start next streams z v) ∙ h) in
        inl (next, sym (ap (λ x. x.1) e), ground arith, n, v, sym (ap (λ x. x.0) e))
    | inl v ↦ elim (Bool-cases (eqb (after next) start)) [
      | inl s ↦
          let e = some-injective (sym (round-full fuel start next streams z v s) ∙ h) in
          inr (
            sym (ap (λ x. x.1) e),
            sym (ap (λ x. x.0.streams) e),
            subst (λ k. k < word_size) (ap (λ x. x.0.next_stream_id) e) (omega arith),
          )
      | inr s ↦
          allocate_loop-IsOutcome fuel start (after next) streams found (omega arith)
            (sym (round-taken fuel start next streams z v s) ∙ h)
    ]
  ]
]

-- The calls that leave a stream in place: all but `remove_stream` of its own identifier. A step is a
-- call that has returned; the fuel is what its search took.
pub data Keeps (id : ℕ) : Multiplexer → Multiplexer → Type 0 where
  allocates :
      {m m' : Multiplexer} (fuel : ℕ) (result : Result MuxError ℕ)
      → allocate_stream fuel m ≡ some (m', result)
      → Keeps id m m'
  registers : {m : Multiplexer} (j : ℕ) → Keeps id m (register_stream m j).0
  closes : {m : Multiplexer} (j : ℕ) → Keeps id m (close_stream m j).0
  removes : {m : Multiplexer} (j : ℕ) → j ≢ id → Keeps id m (remove_stream m j)

pub data Run (id : ℕ) : Multiplexer → Multiplexer → Type 0 where
  ends : {m : Multiplexer} → Run id m m
  steps : {m m' m'' : Multiplexer} → Keeps id m m' → Run id m' m'' → Run id m m''

abbrev pub IsMultiplexer : Multiplexer → Type 0
IsMultiplexer m = m.next_stream_id < word_size

contains-insert :
    (j id : ℕ) (s : StreamState) (m : Map ℕ StreamState)
    → contains_key id m ≡ true
    → contains_key id (insert j s m) ≡ true
unfolding contains_key
contains-insert j id s m h = rw (lookup-insert j id s m) (ground arith)

contains-remove :
    (j id : ℕ) (m : Map ℕ StreamState)
    → j ≢ id
    → contains_key id m ≡ true
    → contains_key id (remove j m) ≡ true
unfolding contains_key
contains-remove j id m differ h = rw (lookup-remove j id m) (ground arith)

contains_self :
    (id : ℕ) (s : StreamState) (m : Map ℕ StreamState) → contains_key id (insert id s m) ≡ true
unfolding contains_key
contains_self id s m = rw (lookup-insert_self id s m) refl

-- A multiplexer in order, in which the identifier is taken
abbrev IsTaken : ℕ → Multiplexer → Type 0
IsTaken id m = IsMultiplexer m × (contains_key id m.streams ≡ true)

step-IsTaken : (id : ℕ) {m m' : Multiplexer} → Keeps id m m' → IsTaken id m → IsTaken id m'
unfolding allocate_stream register_stream close_stream remove_stream
step-IsTaken id {m = m} {m' = m'} (allocates fuel result e) (n, c) =
    elim (allocate_loop-IsOutcome fuel m.next_stream_id m.next_stream_id m.streams (m', result) n
      e) [
        | inl (j, r, low, high, v, same) ↦
            rw same (omega arith, contains-insert j id opened m.streams c)
        | inr (r, same, n') ↦ (n', rw same c)
      ]
step-IsTaken id {m = m} (registers j) (n, c) = elim (Bool-cases (contains_key j m.streams)) [
  | inl v ↦ rw v (n, c)
  | inr v ↦ rw v (n, contains-insert j id opened m.streams c)
]
step-IsTaken id {m = m} (closes j) (n, c) = elim (Bool-cases (contains_key j m.streams)) [
  | inl v ↦ rw v (n, contains-insert j id closed m.streams c)
  | inr v ↦ rw v (n, c)
]
step-IsTaken id {m = m} (removes j differ) (n, c) = (n, contains-remove j id m.streams differ c)

Run-IsTaken : (id : ℕ) {m m' : Multiplexer} → Run id m m' → IsTaken id m → IsTaken id m'
Run-IsTaken id ends t = t
Run-IsTaken id (steps s r) t = Run-IsTaken id r (step-IsTaken id s t)

ok-injective : (i j : ℕ) → ◌≡◌ {A = Result MuxError ℕ} (ok i) (ok j) → i ≡ j
ok-injective i j e = cc

no_id : (i : ℕ) (e : MuxError) → ◌≡◌ {A = Result MuxError ℕ} (ok i) (err e) → ⊥
no_id i e h = cc

allocated :
    (m m' : Multiplexer) (fuel id : ℕ)
    → IsMultiplexer m
    → allocate_stream fuel m ≡ some (m', ok id)
    → IsAllocated m id m'
unfolding allocate_stream
allocated m m' fuel id n h =
    elim (allocate_loop-IsOutcome fuel m.next_stream_id m.next_stream_id m.streams (m', ok id) n
      h) [
        | inr (bad, same, n') ↦ absurd (no_id id no_available_stream_ids bad)
        | inl (j, r, low, high, v, same) ↦
            subst (λ k. IsAllocated m k m') (sym (ok-injective id j r)) (low, high, v, same)
      ]

-- An identifier that was handed out is not handed out again, whatever calls are made, until its stream is
-- removed; and it is never that of the control stream.
pub allocate_stream-fresh :
    (m m₁ m₂ m₃ : Multiplexer) (fuel fuel' id id' : ℕ)
    → m.next_stream_id < word_size
    → allocate_stream fuel m ≡ some (m₁, ok id)
    → Run id m₁ m₂
    → allocate_stream fuel' m₂ ≡ some (m₃, ok id')
    → (1 ≤ id) × (id' ≢ id)
allocate_stream-fresh m m₁ m₂ m₃ fuel fuel' id id' n first run second =
    let (low, high, v, same) = allocated m m₁ fuel id n first in
    let taken : IsTaken id m₁ = rw same (omega arith, contains_self id opened m.streams) in
    let (n₂, c₂) = Run-IsTaken id run taken in
    let (low', high', v', same') = allocated m₂ m₃ fuel' id' n₂ second in
    (low, λ e. clash v' (rw e c₂))
  where
    clash : {b : Bool} → b ≡ false → b ≡ true → ⊥
    clash e e' = cc
