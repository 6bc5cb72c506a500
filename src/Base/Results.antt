-- ===== src/Base/Results.antt =====
-- Fallible code: Rust's `Result`, with its `?` as the bind of a `do` block.
use mathlib.Core.Path.{◌≡◌, refl, ap}
use mathlib.Core.Logic.{◌⊎◌, inl, inr, ◌↔◌}
use mathlib.Core.Option.{Option, none, some}
use mathlib.Core.Bool.{Bool, true, false}

pub data Result {ℓ κ} (E : Type ℓ) (A : Type κ) : Type (ℓ ⊔ κ) where
  ok : A → Result E A
  err : E → Result E A

infixl 5 ◌>>=◌ ◌>>◌
abbrev pub ◌>>=◌ {ε κ μ} :
    {E : Type ε} {S : Type κ} {T : Type μ} → Result E S → (S → Result E T) → Result E T
ok value >>= next = next value
err failure >>= next = err failure

abbrev pub ◌>>◌ {ε κ} : {E : Type ε} {T : Type κ} → Result E (Unit {0}) → Result E T → Result E T
first >> second = first >>= λ done. second

-- `if !test { return Err(e) }`
abbrev pub ensure {ℓ} : {E : Type ℓ} → Bool → E → Result E (Unit {0})
ensure true e = ok tt
ensure false e = err e

abbrev pub map_err {ℓ κ μ} :
    {E : Type ℓ} {F : Type κ} {A : Type μ} → (E → F) → Result E A → Result F A
map_err f (ok a) = ok a
map_err f (err e) = err (f e)

-- Option::ok_or
abbrev pub ok_or {ℓ κ} : {E : Type ℓ} {A : Type κ} → E → Option A → Result E A
ok_or e none = err e
ok_or e (some a) = ok a

abbrev pub unwrap_or {ℓ} : {A : Type ℓ} → A → Option A → A
unwrap_or fallback none = fallback
unwrap_or fallback (some a) = a

abbrev pub is_ok {ℓ κ} : {E : Type ℓ} {A : Type κ} → Result E A → Bool
is_ok (ok a) = true
is_ok (err e) = false

module _ {ℓ κ} {E : Type ℓ} {A : Type κ} where
  pub Result-cases : (r : Result E A) → ((a : A) × (r ≡ ok a)) ⊎ ((e : E) × (r ≡ err e))
  Result-cases (ok a) = inl (a, refl)
  Result-cases (err e) = inr (e, refl)

  -- Inversion of a successful bind.
  pub >>=-eq-ok {μ} :
      {T : Type μ} (first : Result E A) (next : A → Result E T) {final : T}
      → (first >>= next) ≡ ok final
      → (value : A) × (first ≡ ok value) × (next value ≡ ok final)
  >>=-eq-ok (ok value) next run = (value, refl, run)
  >>=-eq-ok (err failure) next run = cc

pub iff_trans {ℓ κ μ} : {A : Type ℓ} {B : Type κ} {C : Type μ} → A ↔ B → B ↔ C → A ↔ C
iff_trans (to, from) (to', from') = (λ a. to' (to a), λ c. from (from' c))

pub ensure_ok {ℓ} :
    {E : Type ℓ} (test : Bool) (e : E) {done : Unit {0}} → ensure test e ≡ ok done → test ≡ true
ensure_ok true e h = refl
ensure_ok false e h = cc

pub ok_or_ok {ℓ κ} :
    {E : Type ℓ} {A : Type κ} (e : E) (o : Option A) (a : A) → ok_or e o ≡ ok a → o ≡ some a
ok_or_ok e none a h = cc
ok_or_ok {E} {A} e (some b) a h = ap some (same h)
  where
    same : ◌≡◌ {A = Result E A} (ok b) (ok a) → b ≡ a
    same x = cc

pub map_err_ok {ℓ κ μ} :
    {E : Type ℓ} {F : Type κ} {A : Type μ} (f : E → F) (r : Result E A) (a : A)
    → map_err f r ≡ ok a
    → r ≡ ok a
map_err_ok {E} {F} {A} f (ok b) a h = ap ok (same h)
  where
    same : ◌≡◌ {A = Result F A} (ok b) (ok a) → b ≡ a
    same x = cc
map_err_ok f (err e) a h = cc
