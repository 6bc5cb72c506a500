-- ===== src/Control/Admission.antt =====
-- Who may open a tunnel, and on which custom domain: `validate_auth_token` and
-- `is_custom_domain_registered` of crates/localup-control/src/handler.rs. The validator of JWTs, the
-- queries of the database, SHA-256, and the clock are parameters.
pub mod Tokens
pub mod Domains
use localup.Base.{
  ℕ, Bool, true, false, not, Option, none, some, ltb, ◌==◌, nat_eq, list_eq, Text, codes, Result,
  ok, err, ◌>>=◌, ◌>>◌, ensure, map_err, ok_or,
}
use localup.Router.Wildcard.{extract_parent_wildcard}

-- The claims of a token that the handler reads.
pub record JwtClaims : Type 0 where
  pub token_type : Option Text
  pub user_id : Option Text

-- A row of the table of tokens, as far as the handler reads it; a user is the text of its UUID.
pub record AuthToken : Type 0 where
  pub user_id : Text
  pub expires_at : Option ℕ
  pub is_active : Bool

pub data DomainStatus : Type 0 where
  pending active expired failed : DomainStatus

-- The queries of the handler: a token by its hash, a custom domain by its name, and a custom domain that
-- is marked as a wildcard by its pattern.
pub record Database : Type 0 where
  pub find_token : Text → Result Text (Option AuthToken)
  pub find_domain : Text → Result Text (Option DomainStatus)
  pub find_wildcard : Text → Result Text (Option DomainStatus)

-- One constructor for each error message.
pub data AuthError : Type 0 where
  invalid_jwt database_error invalid_token_type : Text → AuthError
  missing_user_id not_found deactivated token_expired user_mismatch : AuthError

unfoldable pub check_token_type : Option Text → Result AuthError (Unit {0})
check_token_type none = ok tt
check_token_type (some token_type) =
    ensure (token_type == codes "auth") (invalid_token_type token_type)

-- `expires_at < now`
abbrev pub is_past : ℕ → Option ℕ → Bool
is_past now none = false
is_past now (some expires_at) = ltb expires_at now

-- The checks of the database's record of the token.
unfoldable pub check_record : ℕ → Text → AuthToken → Result AuthError Text
check_record now claimed_user_id t = do
  ensure t.is_active deactivated
  ensure (not (is_past now t.expires_at)) token_expired
  ensure (t.user_id == claimed_user_id) user_mismatch
  ok claimed_user_id

module _ (sha256 : Text → Text) (now : ℕ) where
  unfoldable pub check_database : Option Database → Text → Text → Result AuthError Text
  check_database none token claimed_user_id = ok claimed_user_id
  check_database (some db) token claimed_user_id = do
    found ← map_err database_error (db.find_token (sha256 token))
    token_record ← ok_or not_found found
    check_record now claimed_user_id token_record

  unfoldable pub check_claims : Option Database → Text → JwtClaims → Result AuthError Text
  check_claims db token claims = do
    check_token_type claims.token_type
    claimed_user_id ← ok_or missing_user_id claims.user_id
    check_database db token claimed_user_id

  unfoldable pub validate_auth_token :
      Option (Text → Result Text JwtClaims) → Option Database → Text → Result AuthError Text
  validate_auth_token none db token = ok (codes "anonymous")
  validate_auth_token (some validate) db token = do
    claims ← map_err invalid_jwt (validate token)
    check_claims db token claims

abbrev pub is_active_status : DomainStatus → Bool
is_active_status active = true
is_active_status pending = false
is_active_status expired = false
is_active_status failed = false

-- What the row of a wildcard says.
unfoldable pub wildcard_row : Result Text (Option DomainStatus) → Result Text Bool
wildcard_row (err e) = err e
wildcard_row (ok none) = ok false
wildcard_row (ok (some status)) = ok (is_active_status status)

-- The second query, for the parent pattern of the domain.
unfoldable pub is_wildcard_registered : Database → Option Text → Result Text Bool
is_wildcard_registered db none = ok false
is_wildcard_registered db (some wildcard_pattern) = wildcard_row (db.find_wildcard wildcard_pattern)

-- What the row of the domain itself says; without a row, the parent pattern decides.
unfoldable pub domain_row : Database → Text → Result Text (Option DomainStatus) → Result Text Bool
domain_row db domain (err e) = err e
domain_row db domain (ok (some status)) = ok (is_active_status status)
domain_row db domain (ok none) = is_wildcard_registered db (extract_parent_wildcard domain)

unfoldable pub is_custom_domain_registered : Option Database → Text → Result Text Bool
is_custom_domain_registered none domain = ok true
is_custom_domain_registered (some db) domain = domain_row db domain (db.find_domain domain)
