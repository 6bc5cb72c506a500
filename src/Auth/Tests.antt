-- ===== src/Auth/Tests.antt =====
-- A token for one agent and any address.
use localup.Base.{◌≡◌, ◌↔◌, true, none, [], ◌∷◌, nat_eq, list_eq, codes, ok}
use localup.Auth.Claims.{
  JwtClaims, with_reverse_tunnel, with_allowed_agents, with_allowed_addresses,
  validate_reverse_localup_access, IsPermitted, validate_reverse_localup_access_iff,
}

abbrev plain : JwtClaims
plain = record {
  sub = codes "client";
  exp = 1000;
  protocols = [];
  regions = [];
  reverse_tunnel = none;
  allowed_agents = none;
  allowed_addresses = none;
}

validate_reverse_localup_access_iff_example :
    (validate_reverse_localup_access
        (with_allowed_addresses
          (with_allowed_agents (with_reverse_tunnel plain true) (codes "agent-1" ∷ []))
          [])
        (codes "agent-1")
        (codes "10.0.0.5:5432")
      ≡ ok tt)
    ↔ ((true ≡ true)
        × IsPermitted (codes "agent-1" ∷ []) (codes "agent-1")
        × IsPermitted [] (codes "10.0.0.5:5432"))
validate_reverse_localup_access_iff_example =
    validate_reverse_localup_access_iff plain true (codes "agent-1" ∷ []) [] (codes "agent-1")
      (codes "10.0.0.5:5432") tt
