-- ===== src/Agent/Access.antt =====
-- The targets that an agent server allows: crates/localup-agent-server/src/access_control.rs. A network and
-- its test, the grammar of socket addresses, and trim are parameters.
use localup.Base.{
  ℕ, ◌≡◌, refl, ap, ◌∙◌, subst, ◌↔◌, Bool, true, not, ◌&&◌, ◌||◌, Option, none, some, List, ltb,
  leb, is_empty, any, nat_eq, list_eq, Text, split_once, Result, ok, ◌>>=◌, ◌>>◌, ensure, >>=-eq-ok,
  parse_uint, ok_or, ok_or_ok, ensure_ok,
}
use localup.Proto.IpFilter.{IpAddr, SocketAddr}

pub record PortRange : Type 0 where
  pub start : ℕ
  pub end : ℕ

unfoldable pub contains : PortRange → ℕ → Bool
contains range port = leb range.start port && leb port range.end

-- One constructor for each error message.
pub data PortRangeError : Type 0 where
  invalid_start_port invalid_end_port invalid_port : PortRangeError
  start_after_end : ℕ → ℕ → PortRangeError

unfoldable pub from_str : (Text → Text) → Text → Result PortRangeError PortRange
from_str trim s = elim (split_once b'-' s) [
  | some (start, end) ↦ do
    first ← ok_or invalid_start_port (parse_uint 65535 (trim start))
    last ← ok_or invalid_end_port (parse_uint 65535 (trim end))
    ensure (not (ltb last first)) (start_after_end first last)
    ok (record { start = first; end = last })
  | none ↦ do
    port ← ok_or invalid_port (parse_uint 65535 (trim s))
    ok (record { start = port; end = port })
]

pub data AccessControlError : Type 0 where
  cidr_not_allowed : IpAddr → AccessControlError
  port_not_allowed : ℕ → AccessControlError
  invalid_address : Text → AccessControlError

pub record AccessControl (Net : Type 0) : Type 0 where
  pub allowed_cidrs : List Net
  pub allowed_ports : List PortRange

module _ {Net : Type 0} (net_contains : Net → IpAddr → Bool) where
  unfoldable pub is_allowed : AccessControl Net → SocketAddr → Result AccessControlError (Unit {0})
  is_allowed c addr = do
    ensure (is_empty c.allowed_cidrs || any (λ cidr. net_contains cidr addr.ip) c.allowed_cidrs)
        (cidr_not_allowed addr.ip)
    ensure (is_empty c.allowed_ports || any (λ range. contains range addr.port) c.allowed_ports)
        (port_not_allowed addr.port)

  unfoldable pub validate_target :
      (Text → Option SocketAddr) → AccessControl Net → Text → Result AccessControlError SocketAddr
  validate_target parse c target = do
    addr ← ok_or (invalid_address target) (parse target)
    is_allowed c addr
    ok addr

  -- A target is accepted exactly if it is a socket address whose IP address is in an allowed network, when
  -- networks are configured, and whose port is in an allowed range, when ranges are configured.
  pub validate_target_iff :
      (parse : Text → Option SocketAddr) (c : AccessControl Net) (target : Text) (addr : SocketAddr)
      → (validate_target parse c target ≡ ok addr) ↔ (
          (parse target ≡ some addr)
          × ((is_empty c.allowed_cidrs || any (λ cidr. net_contains cidr addr.ip) c.allowed_cidrs)
              ≡ true)
          × ((is_empty c.allowed_ports || any (λ range. contains range addr.port) c.allowed_ports)
              ≡ true))
  unfolding validate_target is_allowed
  validate_target_iff parse c target addr = (
    λ h.
        let (found, e, h1) = >>=-eq-ok (ok_or (invalid_address target) (parse target)) _ h in
        let (u, allowed, h2) = >>=-eq-ok (is_allowed c found) _ h1 in
        let (v, network, port) = >>=-eq-ok (ensure _ (cidr_not_allowed found.ip)) _ allowed in
        let same : found ≡ addr = same_addr found h2 in
        (
          ok_or_ok _ _ found e ∙ ap some same,
          subst
              (λ a.
                (is_empty c.allowed_cidrs || any (λ cidr. net_contains cidr a.ip) c.allowed_cidrs)
                ≡ true)
              same (ensure_ok _ _ network),
          subst
              (λ a.
                (is_empty c.allowed_ports || any (λ range. contains range a.port) c.allowed_ports)
                ≡ true)
              same (ensure_ok _ _ port),
        ),
    λ (e, network, port). rw e (rw network (rw port refl)),
  )
    where
      same_addr :
          (found : SocketAddr)
          → ◌≡◌ {A = Result AccessControlError SocketAddr} (ok found) (ok addr)
          → found ≡ addr
      same_addr found x = cc
