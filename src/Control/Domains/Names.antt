-- ===== src/Control/Domains/Names.antt =====
-- The names that a provider generates.
use localup.Base.{
  ℕ, zero, suc, ◌+◌, ◌-◌, ◌*◌, ◌/◌, ◌%◌, ◌≤◌, ◌<◌, ◌≡◌, refl, sym, ap, ◌∙◌, ◌≢◌, inl, inr, Option,
  some, [], ◌∷◌, ◌++◌, arith, ltb, ltb→lt, Bool-cases, nat_eq, list_eq, Text, codes, digits_value,
}
use localup.Control.Endpoints.{DomainContext, decimal_digits, decimal}
use localup.Control.Domains.{Provider, counter_size, generate_subdomain}

-- A decimal text is read back digit by digit.
digits_value-append :
    (acc m : ℕ) (s : Text) (d : ℕ)
    → d < 10
    → digits_value acc s ≡ some m
    → digits_value acc (s ++ ((b'0' + d) ∷ [])) ≡ some (m * 10 + d)
unfolding digits_value
digits_value-append acc m [] d small h = ground arith
digits_value-append acc m (c ∷ s) d small h =
    ground (arith, digits_value-append (acc * 10 + (c - b'0')) m s d small)

digits_value-empty : (acc : ℕ) → digits_value acc [] ≡ some acc
unfolding digits_value
digits_value-empty acc = refl

decimal_digits_lem : (fuel n : ℕ) → n < fuel → digits_value 0 (decimal_digits fuel n) ≡ some n
unfolding decimal_digits
decimal_digits_lem zero n enough = absurd (omega arith)
decimal_digits_lem (suc fuel) n enough = elim (Bool-cases (ltb n 10)) [
  | inl small ↦
      rw (small, decimal_digits)
        (digits_value-append 0 0 [] n (ltb→lt n 10 small) (digits_value-empty 0)
          ∙ ap some (omega arith))
  | inr big ↦
      let large : 10 ≤ n = ground arith in
      let front = decimal_digits_lem fuel (n / 10) (omega arith) in
      rw (big, decimal_digits)
        (digits_value-append 0 (n / 10) (decimal_digits fuel (n / 10)) (n % 10) (omega arith) front
          ∙ ap some (omega arith))
]

-- A number is read back from its decimal digits.
pub digits_value-decimal : (n : ℕ) → digits_value 0 (decimal n) ≡ some n
unfolding decimal
digits_value-decimal n = decimal_digits_lem (suc n) n (omega arith)

append-cancel : (s t u : Text) → s ++ t ≡ s ++ u → t ≡ u
append-cancel [] t u h = h
append-cancel (c ∷ s) t u h = append-cancel s t u (tails h)
  where
    tails : ◌≡◌ {A = Text} (c ∷ (s ++ t)) (c ∷ (s ++ u)) → s ++ t ≡ s ++ u
    tails x = cc

-- Two providers of subdomains whose counters differ and have not reached the largest u64 generate different
-- names, and each counts on by one: a provider does not repeat a name before its counter wraps around.
pub generate_subdomain-differs :
    (p q : Provider) (c d : DomainContext)
    → p.counter + 1 < counter_size
    → q.counter + 1 < counter_size
    → p.counter ≢ q.counter
    → ((generate_subdomain p c).0 ≢ (generate_subdomain q d).0)
      × ((generate_subdomain p c).1.counter ≡ p.counter + 1)
unfolding generate_subdomain
generate_subdomain-differs p q c d small small' differ =
    let count = (p.counter + 1) % counter_size in
    let count' = (q.counter + 1) % counter_size in
    let value : count ≡ p.counter + 1 = omega arith in
    let value' : count' ≡ q.counter + 1 = omega arith in
    (
      λ same.
          let names : decimal count ≡ decimal count' =
            append-cancel (codes "tunnel-") _ _ (names_of same) in
          let numbers : count ≡ count' = value_of (
            sym (digits_value-decimal count)
            ∙ (ap (digits_value 0) names ∙ digits_value-decimal count')) in
          differ (omega (arith, value, value', numbers)),
      value,
    )
  where
    names_of : {s t : Text} → ◌≡◌ {A = Option Text} (some s) (some t) → s ≡ t
    names_of x = cc

    value_of : {m n : ℕ} → ◌≡◌ {A = Option ℕ} (some m) (some n) → m ≡ n
    value_of x = cc
