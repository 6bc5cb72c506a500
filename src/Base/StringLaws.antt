-- ===== src/Base/StringLaws.antt =====
-- Laws of the string functions of `Strings`.
use Prim.Native.Nat.{ℕ, zero, suc, ◌-◌, ◌≤◌}
use mathlib.Core.Path.{◌≡◌, refl, sym, ap, ◌∙◌}
use mathlib.Core.Logic.{inl, inr}
use mathlib.Core.Bool.{true, false, ◌||◌}
use mathlib.Core.Option.{none, some}
use mathlib.Core.List.{[], ◌∷◌, ◌++◌}
use native.Mathlib.Omega.{arith}
use localup.Base.Tests.{le→leb, leb→le, Option-cases}
use localup.Base.Lists.{length, take, drop, length-append, drop-append, take-append-drop}
use localup.Base.Equality.{nat_eq, list_beq_iff}
use localup.Base.Strings.{Text, ends_with, contains_byte, split_once}

pub contains_byte-append :
    (b : ℕ) (x y : Text) → contains_byte b (x ++ y) ≡ (contains_byte b x || contains_byte b y)
unfolding contains_byte
contains_byte-append b [] y = refl
contains_byte-append b (c ∷ x) y = ground (arith, contains_byte-append b x y)

pub split_once-append :
    (b : ℕ) (x y : Text) → contains_byte b x ≡ false → split_once b (x ++ b ∷ y) ≡ some (x, y)
unfolding split_once contains_byte
split_once-append b [] y h = ground arith
split_once-append b (c ∷ x) y h = ground (arith, split_once-append b x y)

-- The parts around the first occurrence.
pub split_once_sound :
    (b : ℕ) (s x y : Text)
    → split_once b s ≡ some (x, y)
    → (s ≡ x ++ b ∷ y) × (contains_byte b x ≡ false)
unfolding split_once contains_byte
split_once_sound b [] x y h = cc
split_once_sound b (c ∷ s) x y h = elim (Option-cases (split_once b s)) [
  | inl e ↦ (ground (arith, e), ground (arith, e))
  | inr ((u, v), e) ↦
      let ih = split_once_sound b s u v e in (ground (arith, e, ih.0), ground (arith, e, ih.1))
]

pub split_once-none : (b : ℕ) (s : Text) → split_once b s ≡ none → contains_byte b s ≡ false
unfolding split_once contains_byte
split_once-none b [] h = refl
split_once-none b (c ∷ s) h = elim (Option-cases (split_once b s)) [
  | inl e ↦ ground (arith, e, split_once-none b s e)
  | inr ((u, v), e) ↦ ground (arith, e)
]

pub ends_with-append : (x suffix : Text) → ends_with suffix (x ++ suffix) ≡ true
unfolding ends_with
ends_with-append x suffix = ground (
  arith,
  length-append x suffix,
  le→leb (length suffix) (length (x ++ suffix)),
  same,
  list_beq_iff (drop (length (x ++ suffix) - length suffix) (x ++ suffix)) suffix,
)
  where
    same : drop (length (x ++ suffix) - length suffix) (x ++ suffix) ≡ suffix
    same =
        let e : length (x ++ suffix) - length suffix ≡ length x =
          omega (arith, length-append x suffix) in
        rw e (drop-append x suffix)

pub ends_with_sound :
    (suffix s : Text)
    → ends_with suffix s ≡ true
    → (s ≡ take (length s - length suffix) s ++ suffix) × (length suffix ≤ length s)
unfolding ends_with
ends_with_sound suffix s h = (
  sym (take-append-drop n s) ∙ ap (λ t. take n s ++ t) same,
  ground (arith, leb→le (length suffix) (length s)),
)
  where
    n : ℕ
    n = length s - length suffix

    same : drop (length s - length suffix) s ≡ suffix
    same = ground (arith, list_beq_iff (drop (length s - length suffix) s) suffix)

pub take-take : (m n : ℕ) (s : Text) → m ≤ n → take m (take n s) ≡ take m s
take-take zero n s h = refl
take-take (suc m) zero s h = absurd (omega arith)
take-take (suc m) (suc n) [] h = refl
take-take (suc m) (suc n) (c ∷ s) h = ap (◌∷◌ c) (take-take m n s (omega arith))
