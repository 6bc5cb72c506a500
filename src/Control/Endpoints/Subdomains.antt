-- ===== src/Control/Endpoints/Subdomains.antt =====
-- Generated subdomains, and decimal numbers.
use localup.Base.{
  ℕ, zero, suc, ◌/◌, ◌%◌, ◌<◌, ◌≡◌, refl, ap, inl, inr, Bool, true, false, ◌&&◌, ◌||◌, none, some,
  arith, leb, Option-cases, all_below, all_below_sound, length, get_elem?, All, nat_eq, list_eq,
}
use localup.Control.Endpoints.{charset, subdomain_chars, generate_subdomain}

-- A character of a subdomain: a lower-case letter or a digit.
abbrev pub IsBase36 : ℕ → Type 0
IsBase36 c = ((leb b'a' c && leb c b'z') || (leb b'0' c && leb c b'9')) ≡ true

abbrev is_base36_at : ℕ → Bool
is_base36_at i = elim (get_elem? charset i) [
  | none ↦ false
  | some c ↦ (leb b'a' c && leb c b'z') || (leb b'0' c && leb c b'9')
]

charset_in_range : all_below 36 is_base36_at ≡ true
unfolding all_below
charset_in_range = refl

charset_at : (i : ℕ) → i < 36 → (c : ℕ) × (get_elem? charset i ≡ some c) × IsBase36 c
charset_at i small =
    let good : is_base36_at i ≡ true = all_below_sound 36 is_base36_at i charset_in_range small in
    elim (Option-cases (get_elem? charset i)) [
      | inl e ↦ absurd (bad (rw e at good))
      | inr (c, e) ↦ (c, e, rw e at good)
    ]
  where
    bad : false ≡ true → ⊥
    bad x = cc

below_36 : (n : ℕ) → n % 36 < 36
below_36 n = omega arith

subdomain_chars_lem :
    (rounds remaining : ℕ)
    → (length (subdomain_chars rounds remaining) ≡ rounds)
      × All IsBase36 (subdomain_chars rounds remaining)
unfolding subdomain_chars
subdomain_chars_lem zero remaining = (refl, tt)
subdomain_chars_lem (suc rounds) remaining =
    let (c, e, good) = charset_at (remaining % 36) (below_36 remaining) in
    let (count, rest) = subdomain_chars_lem rounds (remaining / 36) in
    (rw (e, subdomain_chars, length) (ap suc count), rw (e, subdomain_chars) (good, rest))

-- A generated subdomain has six characters, each a lower-case letter or a digit.
pub generate_subdomain-IsBase36 :
    (hash : ℕ) → (length (generate_subdomain hash) ≡ 6) × All IsBase36 (generate_subdomain hash)
unfolding generate_subdomain
generate_subdomain-IsBase36 hash = subdomain_chars_lem 6 hash
