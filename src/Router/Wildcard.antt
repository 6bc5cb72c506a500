-- ===== src/Router/Wildcard.antt =====
-- Wildcard domain patterns: crates/localup-router/src/wildcard.rs.
pub mod Matching
pub mod Format
use localup.Base.{
  ℕ, zero, suc, ◌+◌, ◌-◌, ◌*◌, ◌/◌, ◌%◌, ◌^◌, ◌≤◌, ◌<◌, min, max, ◌≡◌, refl, sym, ap, ◌∙◌, subst,
  ◌≡⟨◌⟩◌, ◌∎, ◌≢◌, ◌↔◌, ◌⊎◌, inl, inr, Bool, true, false, not, ◌&&◌, ◌||◌, Option, none, some, List,
  [], ◌∷◌, ◌++◌, map, append-nil, append_assoc, arith, ltb, leb, eqb, if◌then◌else◌, ltb→lt, lt→ltb,
  leb→le, le→leb, eqb_iff, eqb_refl, Bool-cases, Option-cases, is_some, all_below, all_below_sound,
  length, get_elem?, take, drop, is_empty, any, all, length-append, take-append-drop, length-drop,
  length-take, take-append, drop-append, get_elem?-append, All, Any, here, there, All-append, Eq,
  ◌==◌, ==_iff, ==_refl, ==_false, list_beq, list_beq_iff, nat_eq, list_eq, Map, lookup, remove,
  insert, contains_key, Distinct, lookup-remove, lookup-insert, lookup-insert_self, remove_absent,
  remove-Distinct, insert-Distinct, length-remove, length-insert, Bytes, Text, codes, starts_with,
  ends_with, contains_text, contains_byte, split_once, split_parts, split, Result, ok, err, ◌>>=◌,
  ◌>>◌, ensure, map_err, is_ok, Result-cases, >>=-eq-ok,
}

pub data WildcardError : Type 0 where
  empty_pattern bare_asterisk double_asterisk : WildcardError
  right_side_wildcard mid_level_wildcard insufficient_domain_parts : WildcardError
  invalid_pattern : Text → WildcardError

pub record WildcardPattern : Type 0 where
  pub pattern : Text
  pub base_domain : Text

-- `*.`
abbrev pub star_dot : Text
star_dot = b'*' ∷ b'.' ∷ []

-- The checks of a pattern without the prefix `*.`, all of them failures.
reject_prefix : Text → WildcardError
reject_prefix pattern =
    if contains_text (codes ".*.") pattern
      || (contains_text star_dot pattern && not (starts_with star_dot pattern))
      || contains_byte b'*' pattern
    then mid_level_wildcard
    else invalid_pattern (codes "Pattern must start with *. for wildcard domains")

-- The checks of what follows the prefix.
check_base : Text → Result WildcardError (Unit {0})
check_base base = do
  ensure (contains_byte b'.' base) insufficient_domain_parts
  ensure (not (contains_byte b'*' base)) mid_level_wildcard
  ensure (not (any is_empty (split b'.' base)))
      (invalid_pattern (codes "Domain parts cannot be empty"))

unfoldable pub parse : Text → Result WildcardError WildcardPattern
unfolding reject_prefix check_base
parse pattern = do
  ensure (not (is_empty pattern)) empty_pattern
  ensure (not (pattern == codes "*")) bare_asterisk
  ensure (not (contains_text (codes "**") pattern)) double_asterisk
  ensure
      (not (
        ends_with (codes ".*") pattern
        || (ends_with (codes "*") pattern && not (starts_with star_dot pattern))))
      right_side_wildcard
  ensure (starts_with star_dot pattern) (reject_prefix pattern)
  check_base (drop 2 pattern)
  ok (record { pattern = pattern; base_domain = drop 2 pattern })

unfoldable pub matches : WildcardPattern → Text → Bool
matches p hostname =
    let prefix_len = length hostname - length p.base_domain in
    if not (ends_with p.base_domain hostname)
    then false
    else if eqb prefix_len 0
    then false
    else if ltb prefix_len 2 || not (ends_with (codes ".") (take prefix_len hostname))
    then false
    else not (contains_byte b'.' (take (prefix_len - 1) hostname))

unfoldable pub is_wildcard_pattern : Text → Bool
is_wildcard_pattern domain = starts_with star_dot domain

-- `find('.')` and the slice behind it
unfoldable pub extract_parent_wildcard : Text → Option Text
extract_parent_wildcard hostname = elim (split_once b'.' hostname) [
  | none ↦ none
  | some (_, parent) ↦ if contains_byte b'.' parent then some (star_dot ++ parent) else none
]

unfoldable pub count_byte : ℕ → Text → ℕ
count_byte b [] = 0
count_byte b (c ∷ s) = (if c == b then 1 else 0) + count_byte b s

unfoldable pub could_match_wildcard : Text → Bool
unfolding count_byte
could_match_wildcard hostname = leb 2 (count_byte b'.' hostname)
