-- ===== src/Base/Strings.antt =====
-- Texts as lists of bytes (UTF-8), and the string functions of the standard library that the
-- program uses at ASCII separators.
use Prim.Native.Nat.{ℕ, ◌+◌, ◌*◌, ◌-◌, ◌≤◌}
use mathlib.Core.Path.{◌≡◌}
use native.Mathlib.Omega.{arith}
use Prim.Native.Char.{code}
use Prim.Native.String.{String}
use mathlib.Core.Bool.{Bool, true, false, ◌&&◌, ◌||◌}
use mathlib.Core.Option.{Option, none, some}
use mathlib.Core.List.{List, [], ◌∷◌}
use localup.Base.Tests.{leb, if◌then◌else◌, Option-cases}
use localup.Base.Lists.{length, drop, any}
use localup.Base.Equality.{◌==◌, list_beq, nat_eq}

abbrev pub Bytes : Type 0
Bytes = List ℕ

abbrev pub Text : Type 0
Text = List ℕ

-- The bytes of an ASCII literal.
abbrev pub codes : String → Text
codes String.[] = []
codes (String.◌∷◌ c s) = code c ∷ codes s

-- str::starts_with
unfoldable pub starts_with : Text → Text → Bool
starts_with [] s = true
starts_with (p ∷ ps) [] = false
starts_with (p ∷ ps) (c ∷ s) = (p == c) && starts_with ps s

-- str::ends_with
unfoldable pub ends_with : Text → Text → Bool
ends_with suffix s =
    leb (length suffix) (length s) && list_beq (drop (length s - length suffix) s) suffix

-- str::contains with a text
unfoldable pub contains_text : Text → Text → Bool
unfolding starts_with
contains_text needle [] = starts_with needle []
contains_text needle (c ∷ s) = starts_with needle (c ∷ s) || contains_text needle s

-- str::contains with an ASCII character
unfoldable pub contains_byte : ℕ → Text → Bool
contains_byte b s = any (λ c. c == b) s

-- str::split_once with an ASCII character: the parts before and after its first occurrence
unfoldable pub split_once : ℕ → Text → Option (Text × Text)
split_once b [] = none
split_once b (c ∷ s) =
    let later : Option (Text × Text) = elim (split_once b s) [
      | none ↦ none
      | some (before, after) ↦ some (c ∷ before, after)
    ] in
    if c == b then some ([], s) else later

-- the parts of str::split with an ASCII character, the first apart from the rest
unfoldable pub split_parts : ℕ → Text → Text × List Text
split_parts b [] = ([], [])
split_parts b (c ∷ s) =
    let (part, parts) = split_parts b s in if c == b then ([], part ∷ parts) else (c ∷ part, parts)

abbrev pub split : ℕ → Text → List Text
split b s = (split_parts b s).0 ∷ (split_parts b s).1

-- The decimal value of a text of digits, behind `acc`.
unfoldable pub digits_value : ℕ → Text → Option ℕ
digits_value acc [] = some acc
digits_value acc (c ∷ s) =
    let rest = digits_value (acc * 10 + (c - b'0')) s in
    if leb b'0' c && leb c b'9' then rest else none

abbrev at_most : ℕ → Option ℕ → Option ℕ
at_most limit none = none
at_most limit (some n) = if leb n limit then some n else none

-- str::parse of an unsigned integer type with the given largest value: digits, one `+` before them
-- allowed
unfoldable pub parse_uint : ℕ → Text → Option ℕ
unfolding digits_value
parse_uint limit [] = none
parse_uint limit (c ∷ []) = if c == b'+' then none else at_most limit (digits_value 0 (c ∷ []))
parse_uint limit (c ∷ d ∷ s) =
    at_most limit (digits_value 0 (if c == b'+' then d ∷ s else c ∷ d ∷ s))

pub parse_uint_bound : (limit : ℕ) (s : Text) (n : ℕ) → parse_uint limit s ≡ some n → n ≤ limit
unfolding parse_uint
parse_uint_bound limit [] n h = cc
parse_uint_bound limit (c ∷ []) n h = ground (arith, Option-cases (digits_value 0 (c ∷ [])))
parse_uint_bound limit (c ∷ d ∷ s) n h =
    ground (arith, Option-cases (digits_value 0 (if c == b'+' then d ∷ s else c ∷ d ∷ s)))
