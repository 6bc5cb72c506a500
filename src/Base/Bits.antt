-- ===== src/Base/Bits.antt =====
-- `bit_and` with a mask of leading ones, from the recursion on binary digits.
use Prim.Native.Nat.{
  ℕ, zero, suc, ◌+◌, ◌*◌, ◌/◌, ◌%◌, ◌^◌, ◌≤◌, ◌<◌, min, bit_and, digits, bit_and-bitwise,
}
use mathlib.Core.Path.{◌≡◌, refl, sym, ap, ◌∙◌}
use native.Mathlib.Omega.{arith}
use native.Mathlib.Nat.{div-div-eq-div-mul, pow-suc, mul_comm, mul_assoc}

-- Digits of `a` beyond its length add nothing.
digits_enough :
    (k l x y : ℕ) → x ≤ k → x ≤ l → digits (λ z. zero) min k x y ≡ digits (λ z. zero) min l x y
digits_enough (suc k) (suc l) (suc x) y small small' =
    omega (arith, digits_enough k l (suc x / 2) (y / 2) (omega arith) (omega arith))
digits_enough (suc k) (suc l) zero y small small' = refl
digits_enough (suc k) zero zero y small small' = refl
digits_enough zero (suc l) zero y small small' = refl
digits_enough zero zero x y small small' = refl
digits_enough (suc k) zero (suc x) y small small' = absurd (omega arith)
digits_enough zero (suc l) (suc x) y small small' = absurd (omega arith)

pub bit_and_digit : (x y : ℕ) → bit_and x y ≡ bit_and (x / 2) (y / 2) * 2 + min (x % 2) (y % 2)
bit_and_digit zero y = omega (arith, bit_and-bitwise 0 y, bit_and-bitwise 0 (y / 2))
bit_and_digit (suc x) y = omega (
  arith,
  bit_and-bitwise (suc x / 2) (y / 2),
  bit_and-bitwise (suc x) y,
  digits_enough x (suc x / 2) (suc x / 2) (y / 2) (omega arith) (omega arith),
)

-- `p` ones, and `p` ones before `k` zeros
pub ones : ℕ → ℕ
ones zero = 0
ones (suc p) = ones p * 2 + 1

unfoldable pub high_mask : ℕ → ℕ → ℕ
unfolding ones
high_mask p zero = ones p
high_mask p (suc k) = high_mask p k * 2

double_plus_one : (m : ℕ) → (m * 2 + 1) / 2 ≡ m
double_plus_one m = omega arith

double_half : (m : ℕ) → m * 2 / 2 ≡ m
double_half m = omega arith

bit_and-odd : (x m : ℕ) → bit_and x (m * 2 + 1) ≡ bit_and (x / 2) m * 2 + x % 2
bit_and-odd x m = bit_and_digit x (m * 2 + 1) ∙ rw (double_plus_one m) (omega arith)

bit_and-even : (x m : ℕ) → bit_and x (m * 2) ≡ bit_and (x / 2) m * 2
bit_and-even x m = bit_and_digit x (m * 2) ∙ rw (double_half m) (omega arith)

half_bound : (p x : ℕ) → x < 2 ^ suc p → x / 2 < 2 ^ p
half_bound p x h = omega (arith, pow-suc 2 p)

bit_and-ones : (p x : ℕ) → x < 2 ^ p → bit_and x (ones p) ≡ x
unfolding ones
bit_and-ones zero zero h = refl
bit_and-ones zero (suc x) h = absurd (omega arith)
bit_and-ones (suc p) x h =
    bit_and-odd x (ones p) ∙ omega (arith, bit_and-ones p (x / 2) (half_bound p x h))

-- The mask of `p` ones and `k` zeros clears the last `k` digits of a number of `p + k` digits.
pub bit_and-high_mask :
    (p k x : ℕ) → x < 2 ^ (p + k) → bit_and x (high_mask p k) ≡ x / 2 ^ k * 2 ^ k
unfolding high_mask
bit_and-high_mask p zero x h =
    let e : p + 0 ≡ p = omega arith in bit_and-ones p x (rw e at h) ∙ omega arith
bit_and-high_mask p (suc k) x h =
    let e : p + suc k ≡ suc (p + k) = omega arith in
    let ih = bit_and-high_mask p k (x / 2) (half_bound (p + k) x (rw e at h)) in
    let halves : x / 2 / 2 ^ k ≡ x / 2 ^ suc k =
      div-div-eq-div-mul x 2 (2 ^ k) ∙ ap (λ t. x / t) (mul_comm 2 (2 ^ k) ∙ sym (pow-suc 2 k)) in
    bit_and-even x (high_mask p k)
    ∙ rw (ih, halves, pow-suc 2 k) (mul_assoc (x / (2 ^ k * 2)) (2 ^ k) 2)
