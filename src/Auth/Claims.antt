-- ===== src/Auth/Claims.antt =====
-- The limits of a token: `JwtClaims` of crates/localup-auth/src/jwt.rs and `AuthResult` of validator.rs
-- there. The decoder of JWTs, which checks the signature, is a parameter; times are in seconds.
use localup.Base.{
  ℕ, ◌≡◌, refl, ◌↔◌, ◌⊎◌, inl, inr, Bool, true, not, ◌||◌, Option, none, some, List, [], ◌∷◌, ltb,
  is_empty, any, Any, ◌==◌, nat_eq, list_eq, Text, Result, ok, ◌>>=◌, ◌>>◌, ensure, map_err,
  >>=-eq-ok, ensure_ok,
}
use localup.HttpAuth.Verdicts.{has_value_iff}

-- The claims that limit what the token is good for.
pub record JwtClaims : Type 0 where
  pub sub : Text
  pub exp : ℕ
  pub protocols : List Text
  pub regions : List Text
  pub reverse_tunnel : Option Bool
  pub allowed_agents : Option (List Text)
  pub allowed_addresses : Option (List Text)

pub data AccessError : Type 0 where
  reverse_not_allowed : AccessError
  agent_not_allowed address_not_allowed : Text → AccessError

-- Vec::contains
unfoldable pub listed : List Text → Text → Bool
listed names name = any (λ n. n == name) names

abbrev pub nonempty : List Text → Option (List Text)
nonempty [] = none
nonempty (n ∷ names) = some (n ∷ names)

unfoldable pub with_reverse_tunnel : JwtClaims → Bool → JwtClaims
with_reverse_tunnel c enabled = record c { reverse_tunnel = some enabled }

unfoldable pub with_allowed_agents : JwtClaims → List Text → JwtClaims
with_allowed_agents c agents = record c { allowed_agents = nonempty agents }

unfoldable pub with_allowed_addresses : JwtClaims → List Text → JwtClaims
with_allowed_addresses c addresses = record c { allowed_addresses = nonempty addresses }

unfoldable pub is_expired : ℕ → JwtClaims → Bool
is_expired now c = ltb c.exp now

abbrev pub not_disabled : Option Bool → Bool
not_disabled none = true
not_disabled (some enabled) = enabled

-- No list, an empty list, or a list with the name
abbrev pub permits : Option (List Text) → Text → Bool
permits none name = true
permits (some names) name = is_empty names || listed names name

unfoldable pub validate_reverse_localup_access :
    JwtClaims → Text → Text → Result AccessError (Unit {0})
validate_reverse_localup_access c agent_id remote_address = do
  ensure (not_disabled c.reverse_tunnel) reverse_not_allowed
  ensure (permits c.allowed_agents agent_id) (agent_not_allowed agent_id)
  ensure (permits c.allowed_addresses remote_address) (address_not_allowed remote_address)

pub data JwtError : Type 0 where
  encoding_error : Text → JwtError
  token_expired : JwtError

-- `JwtValidator::validate`
unfoldable pub validate : (Text → Result Text JwtClaims) → ℕ → Text → Result JwtError JwtClaims
validate decode now token = do
  claims ← map_err encoding_error (decode token)
  ensure (not (is_expired now claims)) token_expired
  ok claims

-- The name is one of the given ones, if any are given.
abbrev pub IsPermitted : List Text → Text → Type 0
IsPermitted names name = (names ≡ []) ⊎ Any (λ n. n ≡ name) names

listed_iff :
    (names : List Text) (name : Text) → (listed names name ≡ true) ↔ Any (λ n. n ≡ name) names
unfolding listed
listed_iff names name = has_value_iff names name

permits_iff :
    (names : List Text) (name : Text)
    → (permits (nonempty names) name ≡ true) ↔ IsPermitted names name
permits_iff [] name = (λ h. inl refl, λ p. refl)
permits_iff (n ∷ names) name =
    let (to, from) = listed_iff (n ∷ names) name in
    (λ h. inr (to h), λ p. elim p [ inl e ↦ cc | inr a ↦ from a ])

-- A token that was made for given agents and addresses allows a reverse tunnel to an agent and an address
-- exactly if its reverse tunnels are enabled, the agent is one of the given ones unless none is given, and so is the
-- address.
pub validate_reverse_localup_access_iff :
    (c : JwtClaims) (enabled : Bool) (agents addresses : List Text) (agent_id remote_address : Text)
    (u : Unit {0})
    → (validate_reverse_localup_access
          (with_allowed_addresses
            (with_allowed_agents (with_reverse_tunnel c enabled) agents)
            addresses)
          agent_id
          remote_address
        ≡ ok u)
      ↔ ((enabled ≡ true) × IsPermitted agents agent_id × IsPermitted addresses remote_address)
unfolding validate_reverse_localup_access with_allowed_addresses with_allowed_agents
    with_reverse_tunnel
validate_reverse_localup_access_iff c enabled agents addresses agent_id remote_address u =
    let (to, from) = permits_iff agents agent_id in
    let (to', from') = permits_iff addresses remote_address in
    (
      λ h.
          let (v, e, h1) = >>=-eq-ok (ensure enabled reverse_not_allowed) _ h in
          let (w, f, h2) =
            >>=-eq-ok (ensure (permits (nonempty agents) agent_id) (agent_not_allowed agent_id)) _
              h1 in
          (ensure_ok _ _ e, to (ensure_ok _ _ f), to' (ensure_ok _ _ h2)),
      λ (e, a, b). rw e (rw (from a) (rw (from' b) refl)),
    )
