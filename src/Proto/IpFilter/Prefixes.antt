-- ===== src/Proto/IpFilter/Prefixes.antt =====
-- A network contains the addresses of its family that share its leading bits.
use localup.Base.{
  ℕ, zero, suc, ◌+◌, ◌-◌, ◌*◌, ◌/◌, ◌^◌, ◌≤◌, ◌<◌, ◌≡◌, refl, sym, ap, ◌∙◌, subst, ◌↔◌, true, arith,
  eqb, eqb_iff, all_below, all_below_sound, nat_eq, list_eq, bit_and,
}
use native.Mathlib.Nat.{mul-div_cancel, one-le-pow, div-eq_of_lt}
use localup.Base.Bits.{high_mask, bit_and-high_mask}
use localup.Proto.IpFilter.{
  IpAddr, v4, v6, IpNetwork, max_prefix, mask, same_prefix, contains_addr, contains,
}

abbrev pub bits : IpAddr → ℕ
bits (v4 n) = n
bits (v6 n) = n

-- The number of an address fits its family.
abbrev pub IsAddr : IpAddr → Type 0
IsAddr a = bits a < 2 ^ max_prefix a

-- Both addresses are of one family, and agree in their first `p` bits.
abbrev pub SharesPrefix : IpAddr → ℕ → IpAddr → Type 0
SharesPrefix (v4 net) p (v4 test) = net / 2 ^ (32 - p) ≡ test / 2 ^ (32 - p)
SharesPrefix (v6 net) p (v6 test) = net / 2 ^ (128 - p) ≡ test / 2 ^ (128 - p)
SharesPrefix (v4 net) p (v6 test) = ⊥
SharesPrefix (v6 net) p (v4 test) = ⊥

mask_table :
    (all_below 33 (λ p. eqb (mask 32 p) (high_mask p (32 - p))) ≡ true)
    × (all_below 129 (λ p. eqb (mask 128 p) (high_mask p (128 - p))) ≡ true)
unfolding all_below mask high_mask
mask_table = (refl, refl)

mask32 : (p : ℕ) → p ≤ 32 → mask 32 p ≡ high_mask p (32 - p)
mask32 p h =
    (eqb_iff _ _).0 (
      all_below_sound 33 (λ p. eqb (mask 32 p) (high_mask p (32 - p))) p mask_table.0 (omega arith))

mask128 : (p : ℕ) → p ≤ 128 → mask 128 p ≡ high_mask p (128 - p)
mask128 p h = (eqb_iff _ _).0 (
    all_below_sound 129 (λ p. eqb (mask 128 p) (high_mask p (128 - p))) p mask_table.1
      (omega arith))

pow_pos : (k : ℕ) → 0 < 2 ^ k
pow_pos k = one-le-pow k 2 (omega arith)

cancel_pow : (k a b : ℕ) → a * 2 ^ k ≡ b * 2 ^ k → a ≡ b
cancel_pow k a b e =
    sym (mul-div_cancel a (pow_pos k)) ∙ ap (λ t. t / 2 ^ k) e ∙ mul-div_cancel b (pow_pos k)

masked :
    (w p a : ℕ)
    → p ≤ w
    → mask w p ≡ high_mask p (w - p)
    → a < 2 ^ w
    → bit_and a (mask w p) ≡ a / 2 ^ (w - p) * 2 ^ (w - p)
masked w p a le m h =
    let e : w ≡ p + (w - p) = omega arith in
    ap (bit_and a) m ∙ bit_and-high_mask p (w - p) a (subst (λ n. a < 2 ^ n) e h)

no_bits : (w a : ℕ) → a < 2 ^ w → a / 2 ^ (w - 0) ≡ 0
no_bits w a h = let e : w - 0 ≡ w = omega arith in rw e (div-eq_of_lt h)

same_prefix-suc :
    (w p a b : ℕ)
    → same_prefix w (suc p) a b ≡ eqb (bit_and a (mask w (suc p))) (bit_and b (mask w (suc p)))
unfolding same_prefix
same_prefix-suc w p a b = ground arith

same_prefix_iff :
    (w p a b : ℕ)
    → p ≤ w
    → mask w p ≡ high_mask p (w - p)
    → a < 2 ^ w
    → b < 2 ^ w
    → (same_prefix w p a b ≡ true) ↔ (a / 2 ^ (w - p) ≡ b / 2 ^ (w - p))
unfolding same_prefix
same_prefix_iff w zero a b le m ha hb = (λ _. no_bits w a ha ∙ sym (no_bits w b hb), λ _. refl)
same_prefix_iff w (suc p) a b le m ha hb = (
  λ t. cancel_pow (w - suc p) _ _ (
      sym (masked w (suc p) a le m ha)
      ∙ (eqb_iff (bit_and a (mask w (suc p))) (bit_and b (mask w (suc p)))).0
          (sym (same_prefix-suc w p a b) ∙ t)
      ∙ masked w (suc p) b le m hb),
  λ e.
      same_prefix-suc w p a b
      ∙ (eqb_iff (bit_and a (mask w (suc p))) (bit_and b (mask w (suc p)))).1 (
          masked w (suc p) a le m ha
          ∙ ap (λ t. t * 2 ^ (w - suc p)) e
          ∙ sym (masked w (suc p) b le m hb)),
)

contains_addr_iff :
    (net : IpAddr) (p : ℕ) (ip : IpAddr)
    → p ≤ max_prefix net
    → IsAddr net
    → IsAddr ip
    → (contains_addr net p ip ≡ true) ↔ SharesPrefix net p ip
unfolding contains_addr
contains_addr_iff (v4 a) p (v4 b) h ha hb = same_prefix_iff 32 p a b h (mask32 p h) ha hb
contains_addr_iff (v6 a) p (v6 b) h ha hb = same_prefix_iff 128 p a b h (mask128 p h) ha hb
contains_addr_iff (v4 a) p (v6 b) h ha hb = (λ e. cc, λ e. absurd e)
contains_addr_iff (v6 a) p (v4 b) h ha hb = (λ e. cc, λ e. absurd e)

-- The test by masks holds exactly if the network's address and the tested one are of one family and
-- agree in the first `prefix_len` bits, for a prefix length and addresses that fit the family.
pub contains_iff :
    (network : IpNetwork) (ip : IpAddr)
    → network.prefix_len ≤ max_prefix network.addr
    → IsAddr network.addr
    → IsAddr ip
    → (contains network ip ≡ true) ↔ SharesPrefix network.addr network.prefix_len ip
unfolding contains
contains_iff network ip h ha hb = contains_addr_iff network.addr network.prefix_len ip h ha hb
