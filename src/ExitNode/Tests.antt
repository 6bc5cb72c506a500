-- ===== src/ExitNode/Tests.antt =====
-- The port allocator on a range of ten ports.
use localup.Base.{
  ◌≢◌, arith, ℕ, ◌≡◌, refl, Bool, true, none, some, List, [], ◌∷◌, nat_eq, list_eq, lookup, Text,
  codes, split_parts, ok, parse_uint, digits_value,
}
use localup.ExitNode.Ports.Range.{parse_port_range}
use localup.ExitNode.Ports.{
  new, allocate, hash_to_port, search_port, with_reservation_ttl, ports_from, elem, range_size,
}
use localup.ExitNode.Ports.Invariant.{IsConsistent, new-IsConsistent}
use localup.ExitNode.Ports.Calls.{
  Call, allocates, deallocates, cleans_up, run, run-new-IsConsistent,
}
use localup.ExitNode.Ports.Tenure.{allocate-run}

abbrev alice : Text
alice = codes "alice"

abbrev bob : Text
bob = codes "bob"

abbrev one_hash : Text → ℕ
one_hash id = 1

-- Every port can be bound.
abbrev idle : ℕ → ℕ → Bool
idle attempt port = true

abbrev some_calls : List Call
some_calls =
    allocates idle alice none ∷ allocates idle bob none ∷ deallocates 10 alice ∷ cleans_up 1000 ∷ []

alice_allocated : (allocate idle one_hash (new 8000 8009) alice none).1 ≡ ok 8001
unfolding allocate hash_to_port search_port new with_reservation_ttl ports_from elem range_size
    lookup
alice_allocated = refl

ten_ports : range_size (new 8000 8009) ≢ 0
unfolding range_size new with_reservation_ttl
ten_ports e = omega arith

alice_fresh : lookup alice (new 8000 8009).allocated_ports ≡ none
unfolding new with_reservation_ttl lookup
alice_fresh = refl

new-IsConsistent_10 : IsConsistent (new 8000 8009)
unfolding new
new-IsConsistent_10 = new-IsConsistent 8000 8009 300

run-new-IsConsistent_example : IsConsistent (run one_hash (new 8000 8009) some_calls)
run-new-IsConsistent_example = run-new-IsConsistent one_hash 8000 8009 some_calls

allocate-run_example :
    (allocate idle one_hash
      (run one_hash
        (allocate idle one_hash (new 8000 8009) alice none).0
        (deallocates 10 alice ∷ allocates idle bob (some 8001) ∷ []))
      alice
      (some 8009)).1
    ≡ ok 8001
allocate-run_example =
    allocate-run idle idle one_hash (new 8000 8009) alice 8001 none (some 8009)
      (deallocates 10 alice ∷ allocates idle bob (some 8001) ∷ []) new-IsConsistent_10 ten_ports
      alice_allocated (tt, (tt, tt))

all_ports_parsed : parse_port_range (codes "0-65535") ≡ ok (0, 65535)
unfolding parse_port_range split_parts parse_uint digits_value
all_ports_parsed = refl
