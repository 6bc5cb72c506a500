-- ===== src/Base/Assoc.antt =====
-- Hash maps (HashMap, DashMap) as association lists with one entry for each key.
use Prim.Native.Nat.{ℕ, ◌+◌}
use mathlib.Core.Logic.{inl, inr}
use mathlib.Core.Path.{◌≡◌, refl}
use mathlib.Core.Bool.{Bool, true, false}
use mathlib.Core.Option.{Option, none, some}
use mathlib.Core.List.{List, [], ◌∷◌}
use native.Mathlib.Omega.{arith}
use localup.Base.Tests.{if◌then◌else◌, is_some, Option-cases}
use localup.Base.Lists.{length}
use localup.Base.Equality.{Eq, ◌==◌, ==_refl}

abbrev pub Map {ℓ κ} : Type ℓ → Type κ → Type (ℓ ⊔ κ)
Map K V = List (K × V)

no_value : is_some {A = ℕ} none ≡ true → ⊥
no_value e = cc

module _ {ℓ κ} {K : Type ℓ} {V : Type κ} ⦃e : Eq K⦄ where
  unfoldable pub lookup : K → Map K V → Option V
  lookup k [] = none
  lookup k ((j, v) ∷ m) = if j == k then some v else lookup k m

  unfoldable pub remove : K → Map K V → Map K V
  remove k [] = []
  remove k ((j, v) ∷ m) = let rest = remove k m in if j == k then rest else (j, v) ∷ rest

  unfoldable pub insert : K → V → Map K V → Map K V
  unfolding remove
  insert k v m = (k, v) ∷ remove k m

  unfoldable pub contains_key : K → Map K V → Bool
  contains_key k m = is_some (lookup k m)

  -- Each key stands in one entry.
  abbrev pub Distinct : Map K V → Type κ
  Distinct [] = Unit
  Distinct ((k, v) ∷ m) = (lookup k m ≡ none) × Distinct m

  pub lookup-remove :
      (k j : K) (m : Map K V) → lookup j (remove k m) ≡ (if k == j then none else lookup j m)
  unfolding lookup remove
  lookup-remove k j [] = ground arith
  lookup-remove k j ((i, v) ∷ m) =
      ground (arith, lookup-remove k j m, e.beq_iff i k, e.beq_iff i j, e.beq_iff k j)

  pub lookup-insert :
      (k j : K) (v : V) (m : Map K V)
      → lookup j (insert k v m) ≡ (if k == j then some v else lookup j m)
  unfolding lookup insert
  lookup-insert k j v m = ground (arith, lookup-remove k j m, e.beq_iff k j)

  pub lookup-insert_self : (k : K) (v : V) (m : Map K V) → lookup k (insert k v m) ≡ some v
  lookup-insert_self k v m = rw (lookup-insert k k v m, ==_refl k) refl

  pub remove_absent : (k : K) (m : Map K V) → lookup k m ≡ none → remove k m ≡ m
  unfolding lookup remove
  remove_absent k [] h = refl
  remove_absent k ((i, v) ∷ m) h = ground (arith, remove_absent k m)

  pub remove-insert_absent :
      (k : K) (v : V) (m : Map K V) → lookup k m ≡ none → remove k (insert k v m) ≡ m
  unfolding insert remove
  remove-insert_absent k v m h = rw (==_refl k) (rw (remove_absent k m h) (remove_absent k m h))

  pub absent : (k : K) (m : Map K V) → contains_key k m ≡ false → lookup k m ≡ none
  unfolding contains_key
  absent k m h = ground (arith, Option-cases (lookup k m))

  pub present : (k : K) (m : Map K V) → contains_key k m ≡ true → (v : V) × (lookup k m ≡ some v)
  unfolding contains_key
  present k m h = elim (Option-cases (lookup k m)) [
    | inl e ↦ absurd (no_value (rw e at h))
    | inr found ↦ found
  ]

  pub remove-Distinct : (k : K) (m : Map K V) → Distinct m → Distinct (remove k m)
  unfolding remove
  remove-Distinct k [] d = tt
  remove-Distinct k ((i, v) ∷ m) d =
      ground (arith, remove-Distinct k m d.1, lookup-remove k i m, e.beq_iff k i, e.beq_iff i k)

  pub insert-Distinct : (k : K) (v : V) (m : Map K V) → Distinct m → Distinct (insert k v m)
  unfolding insert
  insert-Distinct k v m d = (rw (lookup-remove k k m, ==_refl k) refl, remove-Distinct k m d)

  pub length-remove :
      (k : K) (m : Map K V)
      → Distinct m
      → length m ≡ length (remove k m) + (if contains_key k m then 1 else 0)
  unfolding remove contains_key lookup
  length-remove k [] d = omega arith
  length-remove k ((i, v) ∷ m) d =
      ground (arith, length-remove k m d.1, remove_absent k m, e.beq_iff i k)

  pub length-insert :
      (k : K) (v : V) (m : Map K V)
      → Distinct m
      → length (insert k v m) + (if contains_key k m then 1 else 0) ≡ length m + 1
  unfolding insert
  length-insert k v m d = omega (arith, length-remove k m d)
