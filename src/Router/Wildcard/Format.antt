-- ===== src/Router/Wildcard/Format.antt =====
-- Which texts the parser of wildcard patterns accepts, and that a hostname has one such pattern.
use localup.Base.{
  ◌-◌, ◌≡◌, refl, sym, ap, ◌∙◌, ◌≢◌, ◌↔◌, inl, inr, Bool, true, false, ◌||◌, some, [], ◌∷◌, ◌++◌,
  append_assoc, arith, eqb_iff, Bool-cases, length, take, drop, is_empty, any, nat_eq, list_eq,
  Text, codes, starts_with, ends_with, contains_text, contains_byte, split, ok,
  contains_byte-append, ends_with_sound,
}
use localup.Router.Wildcard.{WildcardPattern, parse, matches, extract_parent_wildcard, star_dot}
use localup.Router.Wildcard.Matching.{matches_iff, extract_parent_wildcard_iff}

-- A base domain: a dot, no asterisk, and no empty part.
abbrev pub IsBase : Text → Type 0
IsBase base =
    (contains_byte b'.' base ≡ true)
    × (contains_byte b'*' base ≡ false)
    × (any is_empty (split b'.' base) ≡ false)

starts_with-star_dot : (base : Text) → starts_with star_dot (star_dot ++ base) ≡ true
unfolding starts_with
starts_with-star_dot base = refl

star_dot_prefix : (p : Text) → starts_with star_dot p ≡ true → p ≡ star_dot ++ drop 2 p
unfolding starts_with
star_dot_prefix [] h = cc
star_dot_prefix (c ∷ []) h = ground arith
star_dot_prefix (c ∷ d ∷ p) h = ground (arith, eqb_iff 42 c, eqb_iff 46 d)

no_double_asterisk :
    (s : Text) → contains_byte b'*' s ≡ false → contains_text (codes "**") s ≡ false
unfolding contains_byte contains_text
no_double_asterisk [] h = refl
no_double_asterisk (c ∷ s) h = ground (arith, no_double_asterisk s, eqb_iff 42 c)

no_double_asterisk_prefix :
    (base : Text)
    → contains_byte b'*' base ≡ false
    → contains_text (codes "**") (star_dot ++ base) ≡ false
unfolding contains_text
no_double_asterisk_prefix base h = no_double_asterisk base h

or_true : (b : Bool) → (b || true) ≡ true
or_true b = ground arith

nil_of_append : (u b : Text) → u ++ b ≡ [] → b ≡ []
nil_of_append [] b e = e
nil_of_append (c ∷ u) b e = cc

last_star : (u b x : Text) → u ++ b ≡ x ++ b'*' ∷ [] → b ≢ [] → contains_byte b'*' b ≡ true
unfolding contains_byte
last_star [] b x e full =
    rw e (contains_byte-append b'*' x (b'*' ∷ []) ∙ or_true (contains_byte b'*' x))
last_star (c ∷ u) b [] e full = absurd (full (nil_of_append u b (cc)))
last_star (c ∷ u) b (d ∷ x) e full = last_star u b x (cc) full

full_base : (base : Text) → contains_byte b'.' base ≡ true → base ≢ []
unfolding contains_byte
full_base [] h e = cc
full_base (c ∷ base) h e = cc

no_trailing_star : (base : Text) → IsBase base → ends_with (codes ".*") (star_dot ++ base) ≡ false
no_trailing_star base h = elim (Bool-cases (ends_with (codes ".*") (star_dot ++ base))) [
  | inl e ↦
      let whole = (ends_with_sound (codes ".*") (star_dot ++ base) e).0 in
      let front = take (length (star_dot ++ base) - length (codes ".*")) (star_dot ++ base) in
      let starred =
        last_star star_dot base (front ++ b'.' ∷ [])
          (whole ∙ sym (append_assoc front (b'.' ∷ []) (b'*' ∷ []))) (full_base base h.0) in
      cc (starred, h.1)
  | inr e ↦ e
]

parse_of_base :
    (base : Text)
    → IsBase base
    → parse (star_dot ++ base) ≡ ok (record { pattern = star_dot ++ base; base_domain = base })
unfolding parse
parse_of_base base h =
    ground (
      arith,
      no_trailing_star base h,
      no_double_asterisk_prefix base h.1,
      starts_with-star_dot base,
    )

parse_sound :
    (p : Text) (w : WildcardPattern)
    → parse p ≡ ok w
    → (w.pattern ≡ p) × (p ≡ star_dot ++ w.base_domain) × IsBase w.base_domain
unfolding parse
parse_sound p w h = ground (arith, star_dot_prefix p)

-- A text is accepted exactly if it is `*.` and a base domain, which has a dot, no asterisk and no empty
-- part; the pattern keeps both.
pub parse_iff :
    (p : Text) (w : WildcardPattern)
    → (parse p ≡ ok w) ↔ ((w.pattern ≡ p) × (p ≡ star_dot ++ w.base_domain) × IsBase w.base_domain)
parse_iff p w = (
  parse_sound p w,
  λ (same, e, h). rw e (parse_of_base w.base_domain h ∙ ground (arith, same, e)),
)

no_leading_dot :
    (label rest : Text)
    → label ≢ []
    → contains_byte b'.' label ≡ false
    → starts_with (codes ".") (label ++ rest) ≡ false
unfolding contains_byte starts_with
no_leading_dot [] rest full plain = absurd (full refl)
no_leading_dot (c ∷ label) rest full plain = ground (arith, eqb_iff 46 c, eqb_iff c 46)

full_of_no_leading_dot :
    (label rest : Text) → starts_with (codes ".") (label ++ b'.' ∷ rest) ≡ false → label ≢ []
unfolding starts_with
full_of_no_leading_dot [] rest h e = cc
full_of_no_leading_dot (c ∷ label) rest h e = cc

-- For an accepted pattern and any hostname, the pattern matches exactly if it is the hostname's parent
-- pattern and the hostname does not start with a dot.
pub matches_iff_parent :
    (p : Text) (w : WildcardPattern) (hostname : Text)
    → parse p ≡ ok w
    → (matches w hostname ≡ true)
      ↔ ((extract_parent_wildcard hostname ≡ some p) × (starts_with (codes ".") hostname ≡ false))
matches_iff_parent p w hostname h = (forth, back)
  where
    format : (w.pattern ≡ p) × (p ≡ star_dot ++ w.base_domain) × IsBase w.base_domain
    format = parse_sound p w h

    forth :
        matches w hostname ≡ true
        → (extract_parent_wildcard hostname ≡ some p) × (starts_with (codes ".") hostname ≡ false)
    forth m =
        let (label, e, full, plain) = (matches_iff w hostname).0 m in
        (
          (extract_parent_wildcard_iff hostname p).1
              (label, w.base_domain, e, plain, format.2.0, format.1),
          rw e (no_leading_dot label (b'.' ∷ w.base_domain) full plain),
        )

    back :
        (extract_parent_wildcard hostname ≡ some p) × (starts_with (codes ".") hostname ≡ false)
        → matches w hostname ≡ true
    back (found, undotted) =
        let (label, parent, e, plain, dotted, same) =
          (extract_parent_wildcard_iff hostname p).0 found in
        let base : parent ≡ w.base_domain = cc (same, format.1) in
        (matches_iff w hostname).1 (
          label,
          rw e (ap (λ b. label ++ b'.' ∷ b) base),
          full_of_no_leading_dot label parent (rw e at undotted),
          plain,
        )
