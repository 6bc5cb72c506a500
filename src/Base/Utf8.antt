-- ===== src/Base/Utf8.antt =====
-- `String::from_utf8`: which byte sequences are UTF-8.
use Prim.Native.Nat.{ℕ}
use mathlib.Core.Bool.{Bool, true, ◌&&◌, ◌||◌}
use mathlib.Core.List.{[], ◌∷◌}
use localup.Base.Tests.{leb, eqb}
use localup.Base.Strings.{Bytes}

abbrev between : ℕ → ℕ → ℕ → Bool
between lo hi b = leb lo b && leb b hi

abbrev continues : ℕ → Bool
continues b = leb 0x80 b && leb b 0xbf

-- The second byte of a sequence of three or four is bounded by the first.
second_of_three : ℕ → ℕ → Bool
second_of_three b c =
    (eqb b 0xe0 && between 0xa0 0xbf c)
    || (eqb b 0xed && between 0x80 0x9f c)
    || ((between 0xe1 0xec b || between 0xee 0xef b) && continues c)

second_of_four : ℕ → ℕ → Bool
second_of_four b c =
    (eqb b 0xf0 && between 0x90 0xbf c)
    || (between 0xf1 0xf3 b && continues c)
    || (eqb b 0xf4 && between 0x80 0x8f c)

unfoldable pub is_utf8 : Bytes → Bool
unfolding second_of_three second_of_four
is_utf8 [] = true
is_utf8 (b ∷ []) = leb b 0x7f
is_utf8 (b ∷ c ∷ []) = (leb b 0x7f && is_utf8 (c ∷ [])) || (between 0xc2 0xdf b && continues c)
is_utf8 (b ∷ c ∷ d ∷ []) =
    (leb b 0x7f && is_utf8 (c ∷ d ∷ []))
    || (between 0xc2 0xdf b && continues c && is_utf8 (d ∷ []))
    || (second_of_three b c && continues d)
is_utf8 (b ∷ c ∷ d ∷ e ∷ s) =
    let after_one = is_utf8 (c ∷ d ∷ e ∷ s) in
    let after_two = is_utf8 (d ∷ e ∷ s) in
    let after_three = is_utf8 (e ∷ s) in
    let after_four = is_utf8 s in
    (leb b 0x7f && after_one)
    || (between 0xc2 0xdf b && continues c && after_two)
    || (second_of_three b c && continues d && after_three)
    || (second_of_four b c && continues d && continues e && after_four)
