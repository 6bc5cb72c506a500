-- ===== src/Proto/Tests.antt =====
-- The protocol crate on small inputs.
mod Streams
mod Messages
use localup.Base.{
  ◌≡◌, refl, subst, ◌↔◌, ◌⊎◌, inl, inr, true, Option, none, some, [], ◌∷◌, arith, if◌then◌else◌,
  Bool-cases, Any, ◌==◌, nat_eq, list_eq, Text, codes, split_once, ok, parse_uint, digits_value,
}
use localup.Proto.IpFilter.{
  IpAddr, v4, v6, IpNetwork, IpFilter, max_prefix, contains, parse, from_allowlist, init,
  is_allowed, deserialized,
}
use localup.Proto.IpFilter.Prefixes.{IsAddr, SharesPrefix, contains_iff}
use localup.Proto.IpFilter.Allowing.{
  Covers, parse-bounds, is_allowed-from_allowlist, init-deserialized,
}

-- One address that is known.
abbrev from_str : Text → Option IpAddr
from_str s = if s == codes "10.0.0.0" then some (v4 167772160) else none

from_str-IsAddr : (s : Text) (a : IpAddr) → from_str s ≡ some a → IsAddr a
from_str-IsAddr s a h = elim (Bool-cases (s == codes "10.0.0.0")) [
  | inl e ↦ subst IsAddr (same (rw e at h)) (omega arith)
  | inr e ↦ absurd (nothing (rw e at h))
]
  where
    nothing : ◌≡◌ {A = Option IpAddr} none (some a) → ⊥
    nothing e = cc

    same : some (v4 167772160) ≡ some a → v4 167772160 ≡ a
    same e = cc

abbrev private_network : IpNetwork
private_network = record { addr = v4 167772160; prefix_len = 8 }

abbrev private_filter : IpFilter
private_filter = record { allowlist = codes "10.0.0.0/8" ∷ []; networks = private_network ∷ [] }

private-parsed : parse from_str (codes "10.0.0.0/8") ≡ ok private_network
unfolding parse split_once parse_uint digits_value
private-parsed = refl

private-made : from_allowlist from_str (codes "10.0.0.0/8" ∷ []) ≡ ok private_filter
unfolding from_allowlist parse split_once parse_uint digits_value
private-made = refl

is_allowed-from_allowlist_example : (is_allowed private_filter (v4 167772161) ≡ true) ↔ (
    (codes "10.0.0.0/8" ∷ [] ≡ []) ⊎ Any (Covers from_str (v4 167772161)) (codes "10.0.0.0/8" ∷ []))
is_allowed-from_allowlist_example =
    is_allowed-from_allowlist from_str from_str-IsAddr (codes "10.0.0.0/8" ∷ []) private_filter
      (v4 167772161) (omega arith) private-made

init-deserialized_example :
    (is_allowed (deserialized private_filter) (v4 134744072) ≡ true)
    × (init from_str (deserialized private_filter) ≡ (private_filter, ok tt))
init-deserialized_example =
    init-deserialized from_str (codes "10.0.0.0/8" ∷ []) private_filter (v4 134744072) private-made
