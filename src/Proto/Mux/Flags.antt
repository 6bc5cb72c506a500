-- ===== src/Proto/Mux/Flags.antt =====
-- The flags of a frame, `FrameFlags`, each set of flags as its byte: crates/localup-proto/src/mux.rs.
use localup.Base.{
  ℕ, ◌<◌, ◌≡◌, refl, Bool, true, false, not, ◌&&◌, arith, eqb, all_below, all_below_sound, nat_eq,
  list_eq, bit_and, bit_or,
}

abbrev pub fin : ℕ
fin = 1

abbrev pub ack : ℕ
ack = 2

abbrev pub rst : ℕ
rst = 4

unfoldable pub new : ℕ
new = 0

unfoldable pub with_fin : ℕ → ℕ
with_fin flags = bit_or flags fin

unfoldable pub with_ack : ℕ → ℕ
with_ack flags = bit_or flags ack

unfoldable pub with_rst : ℕ → ℕ
with_rst flags = bit_or flags rst

unfoldable pub has_fin : ℕ → Bool
has_fin flags = not (eqb (bit_and flags fin) 0)

unfoldable pub has_ack : ℕ → Bool
has_ack flags = not (eqb (bit_and flags ack) 0)

unfoldable pub has_rst : ℕ → Bool
has_rst flags = not (eqb (bit_and flags rst) 0)

abbrev agree : Bool → Bool → Bool
agree true b = b
agree false b = not b

agree_sound : (a b : Bool) → agree a b ≡ true → a ≡ b
agree_sound a b h = ground arith

-- The test of each flag behind each setter.
unfoldable flag_laws : ℕ → Bool
flag_laws f =
    has_fin (with_fin f)
    && has_ack (with_ack f)
    && has_rst (with_rst f)
    && agree (has_ack (with_fin f)) (has_ack f)
    && agree (has_rst (with_fin f)) (has_rst f)
    && agree (has_fin (with_ack f)) (has_fin f)
    && agree (has_rst (with_ack f)) (has_rst f)
    && agree (has_fin (with_rst f)) (has_fin f)
    && agree (has_ack (with_rst f)) (has_ack f)

all_flags : all_below 256 flag_laws ≡ true
unfolding all_below flag_laws with_fin with_ack with_rst has_fin has_ack has_rst
all_flags = refl

-- On every byte, setting a flag sets it and keeps the two others.
pub flags_apart :
    (f : ℕ)
    → f < 256
    → (has_fin (with_fin f) ≡ true)
      × (has_ack (with_fin f) ≡ has_ack f)
      × (has_rst (with_fin f) ≡ has_rst f)
      × (has_ack (with_ack f) ≡ true)
      × (has_fin (with_ack f) ≡ has_fin f)
      × (has_rst (with_ack f) ≡ has_rst f)
      × (has_rst (with_rst f) ≡ true)
      × (has_fin (with_rst f) ≡ has_fin f)
      × (has_ack (with_rst f) ≡ has_ack f)
unfolding flag_laws
flags_apart f h = ground (arith, all_below_sound 256 flag_laws f all_flags h)
