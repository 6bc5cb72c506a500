-- ===== src/Proto/Mux/Allocation.antt =====
-- The search of `allocate_stream` for an identifier, and the identifiers over a sequence of calls.
use localup.Base.{
  ℕ, zero, suc, ◌+◌, ◌-◌, ◌%◌, ◌≤◌, ◌<◌, ◌≡◌, refl, ◌∙◌, ◌≢◌, inl, inr, Bool, true, false, some,
  arith, leb, eqb, if◌then◌else◌, eqb_iff, Bool-cases, nat_eq, list_eq, Map, insert, contains_key,
  Distinct, ok, err,
}
use localup.Base.Words.{word_size}
use localup.Proto.Mux.{
  no_available_stream_ids, StreamState, opened, Multiplexer, allocate_round, allocate_loop,
  allocate_stream,
}

abbrev pub IsMultiplexer : Multiplexer → Type 0
IsMultiplexer m = (m.next_stream_id < word_size) × Distinct m.streams

abbrev pub mux : ℕ → Map ℕ StreamState → Multiplexer
mux next streams = record { next_stream_id = next; streams = streams }

-- The identifier behind another; 2^32 - 1 is followed by 0.
abbrev pub after : ℕ → ℕ
after id = (id + 1) % word_size

-- How far the search is from an identifier.
abbrev pub distance : ℕ → ℕ → ℕ
distance next target = if leb next target then target - next else target + word_size - next

pub distance-after :
    (next target : ℕ)
    → next < word_size
    → target < word_size
    → next ≢ target
    → suc (distance (after next) target) ≡ distance next target
distance-after next target n t differ = ground arith

-- What a successful allocation did.
abbrev pub IsAllocated : Multiplexer → ℕ → Multiplexer → Type 0
IsAllocated m id m' =
    (1 ≤ id)
    × (id < word_size)
    × (contains_key id m.streams ≡ false)
    × (m' ≡ mux (after id) (insert id opened m.streams))

-- What one round does, on each of its branches.
module _ (fuel start next : ℕ) (streams : Map ℕ StreamState) where
  pub round-control :
      eqb next 0 ≡ true
      → allocate_loop (suc fuel) start (mux next streams) ≡ allocate_loop fuel start (mux 1 streams)
  unfolding allocate_loop allocate_round
  round-control z = rw z

  pub round-vacant :
      eqb next 0 ≡ false
      → contains_key next streams ≡ false
      → allocate_loop (suc fuel) start (mux next streams)
        ≡ some (mux (after next) (insert next opened streams), ok next)
  unfolding allocate_loop allocate_round
  round-vacant z v = rw (z, v)

  pub round-full :
      eqb next 0 ≡ false
      → contains_key next streams ≡ true
      → eqb (after next) start ≡ true
      → allocate_loop (suc fuel) start (mux next streams)
        ≡ some (mux (after next) streams, err no_available_stream_ids)
  unfolding allocate_loop allocate_round
  round-full z v e = rw (z, v, e)

  pub round-taken :
      eqb next 0 ≡ false
      → contains_key next streams ≡ true
      → eqb (after next) start ≡ false
      → allocate_loop (suc fuel) start (mux next streams)
        ≡ allocate_loop fuel start (mux (after next) streams)
  unfolding allocate_loop allocate_round
  round-taken z v e = rw (z, v, e)

-- A search on the way to a vacant identifier, that has not passed its start, finds one.
pub allocate_loop-finds :
    (fuel start next target : ℕ) (streams : Map ℕ StreamState)
    → start < word_size
    → next < word_size
    → 1 ≤ target
    → target < word_size
    → contains_key target streams ≡ false
    → distance next target ≤ distance start target
    → distance next target < fuel
    → (id : ℕ) × (1 ≤ id)
      × (id < word_size)
      × (contains_key id streams ≡ false)
      × (allocate_loop fuel start (mux next streams)
          ≡ some (mux (after id) (insert id opened streams), ok id))
allocate_loop-finds zero start next target streams s n t t' free near enough = absurd (omega arith)
allocate_loop-finds (suc fuel) start next target streams s n t t' free near enough =
    elim (Bool-cases (eqb next 0)) [
      | inl z ↦
          let zero_next : next ≡ 0 = (eqb_iff next 0).0 z in
          let closer : suc (distance 1 target) ≡ distance next target =
            rw zero_next (ground arith) in
          let (id, i, i', v, e) =
            allocate_loop-finds fuel start 1 target streams s (omega arith) t t' free
              (omega (arith, closer)) (omega (arith, closer)) in
          (id, i, i', v, round-control fuel start next streams z ∙ e)
      | inr z ↦ elim (Bool-cases (contains_key next streams)) [
        | inr v ↦ (next, ground arith, n, v, round-vacant fuel start next streams z v)
        | inl v ↦
            let differ : next ≢ target = λ same. other free (rw same at v) in
            let closer = distance-after next target n t' differ in
            let far : eqb (after next) start ≡ false = ground arith in
            let (id, i, i', v', e) =
              allocate_loop-finds fuel start (after next) target streams s (omega arith) t t' free
                (omega (arith, closer)) (omega (arith, closer)) in
            (id, i, i', v', round-taken fuel start next streams z v far ∙ e)
      ]
    ]
  where
    other : {b : Bool} → b ≡ false → b ≡ true → ⊥
    other e e' = cc

-- A vacant identifier is enough: 2^32 rounds return one, which is none of the streams', and add it.
pub allocate_stream-succeeds :
    (m : Multiplexer) (target : ℕ)
    → m.next_stream_id < word_size
    → 1 ≤ target
    → target < word_size
    → contains_key target m.streams ≡ false
    → (id : ℕ) × (m' : Multiplexer) × (allocate_stream word_size m ≡ some (m', ok id))
      × IsAllocated m id m'
unfolding allocate_stream
allocate_stream-succeeds m target n t t' free =
    let start = m.next_stream_id in
    let (id, i, i', v, e) =
      allocate_loop-finds word_size start start target m.streams n n t t' free (omega arith)
        (ground arith) in
    (id, mux (after id) (insert id opened m.streams), e, (i, i', v, refl))
