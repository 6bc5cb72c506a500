-- ===== src/Proto/Mux/Exhaustion.antt =====
-- The search of `allocate_stream` when every identifier is taken.
use localup.Base.{
  ℕ, zero, suc, ◌≤◌, ◌<◌, ◌≡◌, refl, sym, ap, ◌∙◌, subst, ◌≢◌, inl, inr, Bool, true, false, none,
  some, arith, eqb, eqb_iff, Bool-cases, nat_eq, list_eq, Map, contains_key, err,
}
use localup.Base.Words.{word_size}
use localup.Proto.Mux.{
  no_available_stream_ids, StreamState, Multiplexer, allocate_loop, allocate_stream,
}
use localup.Proto.Mux.Allocation.{
  mux, after, distance, distance-after, round-control, round-full, round-taken,
}

-- Every identifier but that of the control stream is taken.
abbrev pub IsFull : Map ℕ StreamState → Type 0
IsFull streams = (id : ℕ) → 1 ≤ id → id < word_size → contains_key id streams ≡ true

full-loop :
    (fuel start next : ℕ) (streams : Map ℕ StreamState)
    → IsFull streams
    → start < word_size
    → start ≢ 1
    → next < word_size
    → next ≢ start
    → distance next start ≤ fuel
    → allocate_loop fuel start (mux next streams)
      ≡ some (mux start streams, err no_available_stream_ids)
full-loop zero start next streams full s s' n differ enough = absurd (ground arith)
full-loop (suc fuel) start next streams full s s' n differ enough =
    let closer = distance-after next start n s differ in
    elim (Bool-cases (eqb next 0)) [
      | inl z ↦
          let zero_next : next ≡ 0 = (eqb_iff next 0).0 z in
          let step : after next ≡ 1 = rw zero_next refl in
          round-control fuel start next streams z
          ∙ full-loop fuel start 1 streams full s s' (omega arith) (λ e. s' (sym e))
              (subst (λ k. distance k start ≤ fuel) step (omega (arith, closer)))
      | inr z ↦
          let taken = full next (ground arith) n in
          elim (Bool-cases (eqb (after next) start)) [
            | inl e ↦
                round-full fuel start next streams z taken e
                ∙ ap (λ k. some (mux k streams, err no_available_stream_ids))
                    ((eqb_iff (after next) start).0 e)
            | inr e ↦
                round-taken fuel start next streams z taken e
                ∙ full-loop fuel start (after next) streams full s s' (omega arith)
                    (λ same. clash e ((eqb_iff (after next) start).1 same)) (omega (arith, closer))
          ]
    ]
  where
    clash : {b : Bool} → b ≡ false → b ≡ true → ⊥
    clash e e' = cc

-- The first round leaves the start.
full-start :
    (fuel start : ℕ) (streams : Map ℕ StreamState)
    → IsFull streams
    → start < word_size
    → start ≢ 1
    → word_size ≤ suc fuel
    → allocate_loop (suc fuel) start (mux start streams)
      ≡ some (mux start streams, err no_available_stream_ids)
full-start fuel start streams full s s' enough = elim (Bool-cases (eqb start 0)) [
  | inl z ↦
      let zero_start : start ≡ 0 = (eqb_iff start 0).0 z in
      round-control fuel start start streams z
      ∙ full-loop fuel start 1 streams full s s' (omega arith) (λ e. s' (sym e)) (ground arith)
  | inr z ↦
      round-taken fuel start start streams z (full start (ground arith) s) (ground arith)
      ∙ full-loop fuel start (after start) streams full s s' (omega arith) (ground arith)
          (ground arith)
]

-- With every identifier taken, the search goes round once and reports it, unless it starts at 1.
pub allocate_stream-fails :
    (m : Multiplexer)
    → m.next_stream_id < word_size
    → m.next_stream_id ≢ 1
    → IsFull m.streams
    → allocate_stream word_size m ≡ some (m, err no_available_stream_ids)
unfolding allocate_stream
allocate_stream-fails m n differ full =
    full-start 4294967295 m.next_stream_id m.streams full n differ (omega arith)

endless :
    (fuel next : ℕ) (streams : Map ℕ StreamState)
    → IsFull streams
    → next < word_size
    → allocate_loop fuel 1 (mux next streams) ≡ none
unfolding allocate_loop
endless zero next streams full n = refl
endless (suc fuel) next streams full n = elim (Bool-cases (eqb next 0)) [
  | inl z ↦ round-control fuel 1 next streams z ∙ endless fuel 1 streams full (omega arith)
  | inr z ↦
      round-taken fuel 1 next streams z (full next (ground arith) n) (ground arith)
      ∙ endless fuel (after next) streams full (omega arith)
]

-- With every identifier taken, the search that starts at 1 never ends: it jumps from 0 to 1 without the
-- test whether it is back at its start.
pub allocate_stream-endless :
    (m : Multiplexer) (fuel : ℕ)
    → m.next_stream_id ≡ 1
    → IsFull m.streams
    → allocate_stream fuel m ≡ none
unfolding allocate_stream
allocate_stream-endless m fuel first full =
    subst (λ k. allocate_loop fuel k (mux k m.streams) ≡ none) (sym first)
      (endless fuel 1 m.streams full (omega arith))
