-- ===== src/Proto/Tests/Streams.antt =====
-- Frames and streams.
use localup.Base.{
  ℕ, zero, suc, ◌≤◌, ◌≡◌, refl, ◌≢◌, ◌↔◌, true, false, none, some, [], ◌∷◌, ◌++◌, arith, All,
  nat_eq, list_eq, Map, lookup, remove, insert, contains_key, Bytes, codes, ok,
}
use localup.Base.Words.{word_size, IsByte}
use localup.Proto.Mux.{
  data_frame, Frame, type_code, encode, decode, StreamState, opened, Multiplexer, multiplexer,
  allocate_round, allocate_loop, allocate_stream,
}
use localup.Proto.Mux.Frames.{IsFrame, decode_iff}
use localup.Proto.Mux.Allocation.{IsAllocated, allocate_stream-succeeds}
use localup.Proto.Mux.Exhaustion.{IsFull, allocate_stream-endless}
use localup.Proto.Mux.Streams.{ends, allocate_stream-fresh}

abbrev hello_frame : Frame
hello_frame = record { stream_id = 42; frame_type = data_frame; flags = 1; payload = codes "hello" }

abbrev hello_bytes : Bytes
hello_bytes = 0 ∷ 0 ∷ 0 ∷ 42 ∷ 1 ∷ 1 ∷ 0 ∷ 0 ∷ 0 ∷ 5 ∷ 104 ∷ 101 ∷ 108 ∷ 108 ∷ 111 ∷ []

hello-encoded : encode hello_frame ≡ ok hello_bytes
unfolding encode type_code
hello-encoded = refl

bytes_valid : All IsByte (hello_bytes ++ 7 ∷ [])
bytes_valid = ground arith

IsFrame-hello_frame : IsFrame hello_frame
IsFrame-hello_frame = ground arith

-- Two open streams.
abbrev two_streams : Multiplexer
two_streams = record { next_stream_id = 1; streams = (1, opened) ∷ (2, opened) ∷ [] }

three_free : contains_key 3 two_streams.streams ≡ false
unfolding contains_key lookup
three_free = refl

-- After an allocation of the next identifier.
abbrev first_allocated : Multiplexer
first_allocated = record { next_stream_id = 2; streams = (1, opened) ∷ [] }

abbrev second_allocated : Multiplexer
second_allocated = record { next_stream_id = 3; streams = (2, opened) ∷ (1, opened) ∷ [] }

first_allocation : allocate_stream 1 multiplexer ≡ some (first_allocated, ok 1)
unfolding allocate_stream allocate_loop allocate_round contains_key lookup insert remove
first_allocation = refl

second_allocation : allocate_stream 1 first_allocated ≡ some (second_allocated, ok 2)
unfolding allocate_stream allocate_loop allocate_round contains_key lookup insert remove
second_allocation = refl

-- All identifiers from 1 to a number.
unfoldable all_streams : ℕ → Map ℕ StreamState
all_streams zero = []
all_streams (suc n) = (suc n, opened) ∷ all_streams n

all_streams-taken : (n id : ℕ) → 1 ≤ id → id ≤ n → contains_key id (all_streams n) ≡ true
unfolding all_streams contains_key lookup
all_streams-taken zero id low high = absurd (omega arith)
all_streams-taken (suc n) id low high = ground (arith, all_streams-taken n id)

abbrev full_from : ℕ → Multiplexer
full_from next = record { next_stream_id = next; streams = all_streams 4294967295 }

full : IsFull (all_streams 4294967295)
full id low high = all_streams-taken 4294967295 id low (omega arith)

decode_iff_example : (decode (hello_bytes ++ 7 ∷ []) ≡ ok hello_frame) ↔ (
    IsFrame hello_frame
    × (bytes : Bytes) × (rest : Bytes) × (encode hello_frame ≡ ok bytes)
    × (hello_bytes ++ 7 ∷ [] ≡ bytes ++ rest))
decode_iff_example = decode_iff (hello_bytes ++ 7 ∷ []) hello_frame bytes_valid

allocate_stream-succeeds_example :
    (id : ℕ) × (m' : Multiplexer) × (allocate_stream word_size two_streams ≡ some (m', ok id))
    × IsAllocated two_streams id m'
allocate_stream-succeeds_example =
    allocate_stream-succeeds two_streams 3 (omega arith) (omega arith) (omega arith) three_free

allocate_stream-endless_example : allocate_stream 1000000 (full_from 1) ≡ none
allocate_stream-endless_example = allocate_stream-endless (full_from 1) 1000000 refl full

allocate_stream-fresh_example : (1 ≤ 1) × (◌≢◌ {A = ℕ} 2 1)
allocate_stream-fresh_example =
    allocate_stream-fresh multiplexer first_allocated first_allocated second_allocated 1 1 1 2
      (omega arith) first_allocation ends second_allocation
