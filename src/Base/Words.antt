-- ===== src/Base/Words.antt =====
-- Big-endian 32-bit words.
use Prim.Native.Nat.{ℕ, ◌+◌, ◌*◌, ◌/◌, ◌%◌, ◌<◌}
use mathlib.Core.Path.{◌≡◌}
use mathlib.Core.List.{[], ◌∷◌, ◌++◌}
use native.Mathlib.Omega.{arith}
use localup.Base.Strings.{Bytes}
use localup.Base.Lists.{All}

abbrev pub IsByte : ℕ → Type 0
IsByte b = b < 256

abbrev pub word_size : ℕ
word_size = 4294967296

-- `buf.put_u32(n)`, `n.to_be_bytes()`
abbrev pub put_u32 : ℕ → Bytes
put_u32 n = n / 16777216 % 256 ∷ n / 65536 % 256 ∷ n / 256 % 256 ∷ n % 256 ∷ []

-- `buf.get_u32()`, `u32::from_be_bytes(..)` of the first four bytes; those who read have checked that
-- there are four.
abbrev pub get_u32 : Bytes → ℕ
get_u32 (a ∷ b ∷ c ∷ d ∷ rest) = ((a * 256 + b) * 256 + c) * 256 + d
get_u32 _ = 0

pub get-put_u32 : (n : ℕ) (rest : Bytes) → n < word_size → get_u32 (put_u32 n ++ rest) ≡ n
get-put_u32 n rest h = omega arith

pub put-get_u32 :
    (a b c d : ℕ) (rest : Bytes)
    → IsByte a
    → IsByte b
    → IsByte c
    → IsByte d
    → (get_u32 (a ∷ b ∷ c ∷ d ∷ rest) < word_size)
      × (put_u32 (get_u32 (a ∷ b ∷ c ∷ d ∷ rest)) ≡ a ∷ b ∷ c ∷ d ∷ [])
put-get_u32 a b c d rest ha hb hc hd = (omega arith, ground arith)

pub put_u32-IsByte : (n : ℕ) → All IsByte (put_u32 n)
put_u32-IsByte n = (omega arith, (omega arith, (omega arith, (omega arith, tt))))
