-- ===== src/Router/Wildcard/Matching.antt =====
-- Which hostnames a wildcard pattern matches, and how the parent pattern finds them.
use localup.Base.{
  ℕ, suc, ◌-◌, ◌≤◌, ◌<◌, ◌≡◌, refl, sym, ap, ◌∙◌, ◌≢◌, ◌↔◌, true, false, Option, none, some, [],
  ◌∷◌, ◌++◌, append_assoc, arith, if◌then◌else◌, length, take, length-append, length-take,
  take-append, nat_eq, list_eq, Text, ends_with, contains_byte, split_once, split_once-append,
  split_once_sound, ends_with-append, ends_with_sound, take-take,
}
use localup.Router.Wildcard.{WildcardPattern, matches, extract_parent_wildcard, star_dot}

-- A hostname of one more level than the base: a non-empty label, a dot, the base.
abbrev pub IsSubdomain : Text → Text → Type 0
IsSubdomain base hostname =
    (label : Text) × (hostname ≡ label ++ b'.' ∷ base)
    × (label ≢ [])
    × (contains_byte b'.' label ≡ false)

length-label :
    (label base : Text) → length (label ++ b'.' ∷ base) - length base ≡ suc (length label)
length-label label base = omega (arith, length-append label (b'.' ∷ base))

-- the prefix that the code cuts off, and the label in it
take-label :
    (label base : Text) → take (suc (length label)) (label ++ b'.' ∷ base) ≡ label ++ b'.' ∷ []
take-label [] base = refl
take-label (c ∷ label) base = ap (◌∷◌ c) (take-label label base)

length-ne-zero : (s : Text) → s ≢ [] → 0 < length s
length-ne-zero [] h = absurd (h refl)
length-ne-zero (c ∷ s) h = omega arith

ends_with_base : (label base : Text) → ends_with base (label ++ b'.' ∷ base) ≡ true
ends_with_base label base =
    rw (sym (append_assoc label (b'.' ∷ []) base)) (ends_with-append (label ++ b'.' ∷ []) base)

take_label : (label rest : Text) → take (suc (length label) - 1) (label ++ rest) ≡ label
take_label label rest =
    let e : suc (length label) - 1 ≡ length label = omega arith in rw e (take-append label rest)

matches_of_IsSubdomain :
    (p : WildcardPattern) (label : Text)
    → label ≢ []
    → contains_byte b'.' label ≡ false
    → matches p (label ++ b'.' ∷ p.base_domain) ≡ true
unfolding matches
matches_of_IsSubdomain p label full plain =
    rw
      (
        length-label label p.base_domain,
        take-label label p.base_domain,
        ends_with_base label p.base_domain,
        ends_with-append label (b'.' ∷ []),
        take_label label (b'.' ∷ p.base_domain),
      )
      (ground (arith, length-ne-zero label full))

-- What the tests of `matches` establish.
record Tests (base hostname : Text) (n : ℕ) : Type 0 where
  ends : ends_with base hostname ≡ true
  long : 2 ≤ n
  dotted : ends_with (b'.' ∷ []) (take n hostname) ≡ true
  plain : contains_byte b'.' (take (n - 1) hostname) ≡ false

matches-Tests :
    (p : WildcardPattern) (hostname : Text)
    → matches p hostname ≡ true
    → Tests p.base_domain hostname (length hostname - length p.base_domain)
unfolding matches
matches-Tests p hostname m = ground arith

Tests-IsSubdomain :
    (base hostname : Text) (n : ℕ)
    → n ≡ length hostname - length base
    → Tests base hostname n
    → IsSubdomain base hostname
Tests-IsSubdomain base hostname n e t = (take (n - 1) hostname, whole, full, t.plain)
  where
    cut : length (take n hostname) ≡ n
    cut = length-take n hostname (omega arith)

    front : take n hostname ≡ take (n - 1) hostname ++ b'.' ∷ []
    front =
        (ends_with_sound (b'.' ∷ []) (take n hostname) t.dotted).0
        ∙ (let same : length (take n hostname) - length {A = ℕ} (b'.' ∷ []) ≡ n - 1 =
              omega (arith, cut) in
            rw same (rw (take-take (n - 1) n hostname (omega arith))))

    whole : hostname ≡ take (n - 1) hostname ++ b'.' ∷ base
    whole =
        (ends_with_sound base hostname t.ends).0
        ∙ rw (← e)
            (ap (λ x. x ++ base) front ∙ append_assoc (take (n - 1) hostname) (b'.' ∷ []) base)

    full : take (n - 1) hostname ≢ []
    full bare = absurd (
        omega (arith, t.long, ap length bare, length-take (n - 1) hostname (omega (arith, t.long))))

-- A pattern matches exactly the hostnames of one more level: a non-empty label without a dot, then a
-- dot and the base domain.
pub matches_iff :
    (p : WildcardPattern) (hostname : Text)
    → (matches p hostname ≡ true) ↔ IsSubdomain p.base_domain hostname
matches_iff p hostname = (
  λ m. Tests-IsSubdomain p.base_domain hostname _ refl (matches-Tests p hostname m),
  λ s. rw s.1 (matches_of_IsSubdomain p s.0 s.2 s.3),
)

extract_of_label :
    (label parent : Text)
    → contains_byte b'.' label ≡ false
    → extract_parent_wildcard (label ++ b'.' ∷ parent)
      ≡ (if contains_byte b'.' parent then some (star_dot ++ parent) else none)
unfolding extract_parent_wildcard
extract_of_label label parent h =
    rw (split_once-append b'.' label parent h, extract_parent_wildcard) refl

-- The hostname is a label without a dot, a dot, and a domain with a dot; the pattern has that domain.
abbrev pub IsParent : Text → Text → Type 0
IsParent hostname wildcard =
    (label : Text) × (parent : Text) × (hostname ≡ label ++ b'.' ∷ parent)
    × (contains_byte b'.' label ≡ false)
    × (contains_byte b'.' parent ≡ true)
    × (wildcard ≡ star_dot ++ parent)

extract-IsParent :
    (hostname wildcard : Text) (o : Option (Text × Text))
    → split_once b'.' hostname ≡ o
    → extract_parent_wildcard hostname ≡ some wildcard
    → IsParent hostname wildcard
unfolding extract_parent_wildcard
extract-IsParent hostname wildcard none e h = let h' = rw (e, extract_parent_wildcard) at h in cc
extract-IsParent hostname wildcard (some (label, parent)) e h =
    let (whole, plain) = split_once_sound b'.' hostname label parent e in
    let h' = rw (e, extract_parent_wildcard) at h in
    (label, parent, whole, plain, ground arith, ground arith)

-- A hostname has a parent pattern exactly if it is a label without a dot, a dot, and a domain that has
-- a dot itself; the pattern is `*.` before that domain.
pub extract_parent_wildcard_iff :
    (hostname wildcard : Text)
    → (extract_parent_wildcard hostname ≡ some wildcard) ↔ IsParent hostname wildcard
extract_parent_wildcard_iff hostname wildcard = (
  extract-IsParent hostname wildcard (split_once b'.' hostname) refl,
  λ (label, parent, e, plain, dotted, w).
      rw (e, w) (rw (extract_of_label label parent plain) (rw dotted)),
)
