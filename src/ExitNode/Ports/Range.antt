-- ===== src/ExitNode/Ports/Range.antt =====
-- The range of ports: `parse_port_range` of crates/localup-exit-node/src/main.rs, and the size of the range.
use localup.Base.{
  ℕ, ◌+◌, ◌-◌, ◌%◌, ◌≤◌, ◌<◌, ◌≡◌, refl, ◌↔◌, inl, inr, Bool, true, false, Option, none, some, List,
  [], ◌∷◌, arith, ltb, eqb, ltb→lt, eqb_iff, Bool-cases, nat_eq, list_eq, Text, split, Result, ok,
  err, ◌>>=◌, ◌>>◌, ensure, >>=-eq-ok, parse_uint, parse_uint_bound,
}
use localup.ExitNode.Ports.{
  AllocateError, panics, hash_to_port, range_size, new, with_reservation_ttl,
}

-- The texts of the errors
pub data RangeError : Type 0 where
  invalid_format : RangeError
  invalid_start invalid_end : Text → RangeError
  start_not_less : RangeError

abbrev or_fail : Option ℕ → RangeError → Result RangeError ℕ
or_fail none e = err e
or_fail (some n) e = ok n

abbrev parse_bounds : Text → Text → Result RangeError (ℕ × ℕ)
parse_bounds first last = do
  start ← or_fail (parse_uint 65535 first) (invalid_start first)
  end ← or_fail (parse_uint 65535 last) (invalid_end last)
  ensure (ltb start end) start_not_less
  ok (start, end)

abbrev of_parts : List Text → Result RangeError (ℕ × ℕ)
of_parts (first ∷ last ∷ []) = parse_bounds first last
of_parts _ = err invalid_format

unfoldable pub parse_port_range : Text → Result RangeError (ℕ × ℕ)
parse_port_range range_str = of_parts (split b'-' range_str)

no_range : {e : RangeError} {p : ℕ × ℕ} → ◌≡◌ {A = Result RangeError (ℕ × ℕ)} (err e) (ok p) → ⊥
no_range h = cc

read : (o : Option ℕ) (e : RangeError) (n : ℕ) → or_fail o e ≡ ok n → o ≡ some n
read none e n h = cc
read (some m) e n h = cc

checked : (b : Bool) (e : RangeError) {u : Unit {0}} → ensure b e ≡ ok u → b ≡ true
checked true e h = refl
checked false e h = cc

bounds-range :
    (first last : Text) (start end : ℕ)
    → parse_bounds first last ≡ ok (start, end)
    → (start < end) × (end ≤ 65535)
bounds-range first last start end h =
    let (s, e₁, h₁) = >>=-eq-ok (or_fail (parse_uint 65535 first) (invalid_start first)) _ h in
    let (e, e₂, h₂) = >>=-eq-ok (or_fail (parse_uint 65535 last) (invalid_end last)) _ h₁ in
    let (u, e₃, h₃) = >>=-eq-ok (ensure (ltb s e) start_not_less) _ h₂ in
    let same_start : s ≡ start = cc h₃ in
    let same_end : e ≡ end = cc h₃ in
    let less = ltb→lt s e (checked (ltb s e) start_not_less e₃) in
    let small =
      parse_uint_bound 65535 last e (read (parse_uint 65535 last) (invalid_end last) e e₂) in
    (omega (arith, less, same_start, same_end), omega (arith, small, same_end))

parts-range :
    (parts : List Text) (start end : ℕ)
    → of_parts parts ≡ ok (start, end)
    → (start < end) × (end ≤ 65535)
parts-range [] start end h = absurd (no_range h)
parts-range (first ∷ []) start end h = absurd (no_range h)
parts-range (first ∷ last ∷ []) start end h = bounds-range first last start end h
parts-range (first ∷ last ∷ third ∷ parts) start end h = absurd (no_range h)

-- A range that is accepted from the command line is in order and of ports, and the allocator that is made
-- of it panics, when it computes the port that it prefers, exactly if it is the range of all ports.
pub parse_port_range-hash_to_port :
    (is_port_available : ℕ → ℕ → Bool) (hash : Text → ℕ) (range_str id : Text) (start end : ℕ)
    → parse_port_range range_str ≡ ok (start, end)
    → (start < end)
      × (end ≤ 65535)
      × ((hash_to_port is_port_available hash (new start end) id ≡ err panics)
          ↔ ((start ≡ 0) × (end ≡ 65535)))
unfolding parse_port_range hash_to_port range_size new with_reservation_ttl
parse_port_range-hash_to_port o hash range_str id start end h =
    let (less, small) = parts-range (split b'-' range_str) start end h in
    (less, small, whole_range less small)
  where
    other : {p : ℕ} → ◌≡◌ {A = Result AllocateError ℕ} (ok p) (err panics) → ⊥
    other e = cc

    whole_range :
        start < end
        → end ≤ 65535
        → (hash_to_port o hash (new start end) id ≡ err panics) ↔ ((start ≡ 0) × (end ≡ 65535))
    whole_range less small = elim (Bool-cases (eqb ((end + 65536 - start + 1) % 65536) 0)) [
      | inl e ↦
          let wraps : (end + 65536 - start + 1) % 65536 ≡ 0 = (eqb_iff _ 0).0 e in
          rw e (λ p. (omega (arith, wraps), omega (arith, wraps)), λ r. refl)
      | inr e ↦ rw e (λ p. absurd (other p), λ (a, b). absurd (ground arith))
    ]
