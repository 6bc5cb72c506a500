-- ===== src/Proto/IpFilter.antt =====
-- IP filters with CIDR ranges: crates/localup-proto/src/ip_filter.rs.
pub mod Prefixes
pub mod Allowing
use localup.Base.{
  ℕ, ◌-◌, ◌*◌, ◌%◌, ◌^◌, Bool, true, false, Option, none, some, List, [], ◌∷◌, ◌++◌, leb, eqb,
  if◌then◌else◌, length, is_empty, any, Text, split_once, Result, ok, err, ◌>>=◌, ◌>>◌, ensure,
  bit_and, parse_uint,
}

-- std::net::IpAddr, an address as the number that `u32::from` or `u128::from` gives.
pub data IpAddr : Type 0 where
  v4 v6 : ℕ → IpAddr

pub record SocketAddr : Type 0 where
  pub ip : IpAddr
  pub port : ℕ

pub record IpNetwork : Type 0 where
  pub addr : IpAddr
  pub prefix_len : ℕ

pub data IpFilterError : Type 0 where
  invalid_ip_address invalid_cidr : Text → IpFilterError

pub record IpFilter : Type 0 where
  pub allowlist : List Text
  pub networks : List IpNetwork

abbrev pub max_prefix : IpAddr → ℕ
max_prefix (v4 _) = 32
max_prefix (v6 _) = 128

-- `!0 << (width - prefix_len)` in `width` bits
unfoldable pub mask : ℕ → ℕ → ℕ
mask width prefix_len = (2 ^ width - 1) * 2 ^ (width - prefix_len) % 2 ^ width

same_prefix : ℕ → ℕ → ℕ → ℕ → Bool
same_prefix width prefix_len net_bits test_bits =
    if eqb prefix_len 0
    then true
    else eqb (bit_and net_bits (mask width prefix_len)) (bit_and test_bits (mask width prefix_len))

contains_addr : IpAddr → ℕ → IpAddr → Bool
contains_addr (v4 net) prefix_len (v4 test) = same_prefix 32 prefix_len net test
contains_addr (v6 net) prefix_len (v6 test) = same_prefix 128 prefix_len net test
contains_addr (v4 net) prefix_len (v6 test) = false
contains_addr (v6 net) prefix_len (v4 test) = false

unfoldable pub contains : IpNetwork → IpAddr → Bool
unfolding contains_addr same_prefix
contains network ip = contains_addr network.addr network.prefix_len ip

abbrev or_fail {ℓ κ} : {E : Type ℓ} {A : Type κ} → Option A → E → Result E A
or_fail none e = err e
or_fail (some a) e = ok a

-- The grammar of addresses, `IpAddr::from_str`, is a parameter.
module _ (from_str : Text → Option IpAddr) where
  parse_cidr : Text → Text → Text → Result IpFilterError IpNetwork
  parse_cidr s ip_str prefix_str = do
    addr ← or_fail (from_str ip_str) (invalid_ip_address s)
    prefix_len ← or_fail (parse_uint 255 prefix_str) (invalid_cidr s)
    ensure (leb prefix_len (max_prefix addr)) (invalid_cidr s)
    ok (record { addr = addr; prefix_len = prefix_len })

  parse_single : Text → Result IpFilterError IpNetwork
  parse_single s = do
    addr ← or_fail (from_str s) (invalid_ip_address s)
    ok (record { addr = addr; prefix_len = max_prefix addr })

  unfoldable pub parse : Text → Result IpFilterError IpNetwork
  unfolding parse_cidr parse_single
  parse s = elim (split_once b'/' s) [
    | some (ip_str, prefix_str) ↦ parse_cidr s ip_str prefix_str
    | none ↦ parse_single s
  ]

  -- the loop of `from_allowlist`
  parse_all : List Text → Result IpFilterError (List IpNetwork)
  parse_all [] = ok []
  parse_all (entry ∷ rest) = do
    network ← parse entry
    networks ← parse_all rest
    ok (network ∷ networks)

  unfoldable pub from_allowlist : List Text → Result IpFilterError IpFilter
  unfolding parse_all
  from_allowlist allowlist = do
    networks ← parse_all allowlist
    ok (record { allowlist = allowlist; networks = networks })

  -- The loop of `init` pushes onto the cache: an error leaves what came before it.
  init_loop : List Text → List IpNetwork → List IpNetwork × Result IpFilterError (Unit {0})
  init_loop [] networks = (networks, ok tt)
  init_loop (entry ∷ rest) networks = elim (parse entry) [
    | err e ↦ (networks, err e)
    | ok network ↦ init_loop rest (networks ++ network ∷ [])
  ]

  unfoldable pub init : IpFilter → IpFilter × Result IpFilterError (Unit {0})
  unfolding init_loop
  init filter =
      let (networks, result) = init_loop filter.allowlist [] in
      (record filter { networks = networks }, result)

unfoldable pub new : IpFilter
new = record { allowlist = []; networks = [] }

unfoldable pub is_allowed : IpFilter → IpAddr → Bool
is_allowed filter ip =
    if is_empty filter.networks then true else any (λ network. contains network ip) filter.networks

unfoldable pub is_socket_allowed : IpFilter → SocketAddr → Bool
is_socket_allowed filter addr = is_allowed filter addr.ip

-- serde leaves the cache of networks out (`#[serde(skip)]`): a filter that was written and read again
-- has its allowlist and no network.
abbrev pub deserialized : IpFilter → IpFilter
deserialized filter = record filter { networks = [] }

abbrev pub len : IpFilter → ℕ
len filter = length filter.allowlist

abbrev pub has_no_entries : IpFilter → Bool
has_no_entries filter = is_empty filter.allowlist
