-- ===== src/Control/Admission/Tokens.antt =====
-- Which tokens open a tunnel.
use localup.Base.{
  ℕ, ◌≡◌, refl, sym, ap, ◌∙◌, ◌↔◌, ◌⊎◌, inl, inr, Bool, true, false, not, Option, none, some, ◌==◌,
  ==_iff, nat_eq, list_eq, Text, codes, Result, ok, ◌>>◌, ensure, map_err, >>=-eq-ok, ok_or,
  ok_or_ok, map_err_ok, ensure_ok,
}
use localup.Control.Admission.{
  JwtClaims, AuthToken, Database, invalid_jwt, database_error, missing_user_id, not_found,
  deactivated, token_expired, user_mismatch, check_token_type, is_past, check_record,
  check_database, check_claims, validate_auth_token,
}

-- The token has no type, or the type `auth`.
abbrev pub IsAuthType : Option Text → Type 0
IsAuthType token_type = (token_type ≡ none) ⊎ (token_type ≡ some (codes "auth"))

-- The record of a token that is valid now, and belongs to the user.
abbrev pub IsValidRecord : ℕ → Text → AuthToken → Type 0
IsValidRecord now user t =
    (t.is_active ≡ true) × (is_past now t.expires_at ≡ false) × (t.user_id ≡ user)

-- What the database must say of a token, if there is a database.
abbrev pub IsKnown : (Text → Text) → ℕ → Option Database → Text → Text → Type 0
IsKnown sha256 now none token user = Unit
IsKnown sha256 now (some db) token user =
    (t : AuthToken) × (db.find_token (sha256 token) ≡ ok (some t)) × IsValidRecord now user t

-- The three checks of a record, one after the other.
record_checks :
    (live past same : Bool) (claimed user : Text)
    → ((ensure live deactivated
          >> (ensure (not past) token_expired >> (ensure same user_mismatch >> ok claimed)))
        ≡ ok user)
      ↔ ((live ≡ true) × (past ≡ false) × (same ≡ true) × (claimed ≡ user))
record_checks true false true claimed user = (λ h. (refl, refl, refl, cc), λ (l, p, s, e). ap ok e)
record_checks false past same claimed user = (λ h. cc, λ (l, p, s, e). cc)
record_checks true true same claimed user = (λ h. cc, λ (l, p, s, e). cc)
record_checks true false false claimed user = (λ h. cc, λ (l, p, s, e). cc)

check_record_iff :
    (now : ℕ) (claimed user : Text) (t : AuthToken)
    → (check_record now claimed t ≡ ok user) ↔ (IsValidRecord now user t × (claimed ≡ user))
unfolding check_record
check_record_iff now claimed user t =
    let (to, from) =
      record_checks t.is_active (is_past now t.expires_at) (t.user_id == claimed) claimed user in
    (
      λ h.
          let (live, unexpired, same, e) = to h in
          ((live, unexpired, (==_iff t.user_id claimed).0 same ∙ e), e),
      λ ((live, unexpired, owner), e).
          from (live, unexpired, (==_iff t.user_id claimed).1 (owner ∙ sym e), e),
    )

check_token_type_iff :
    (token_type : Option Text) (u : Unit {0})
    → (check_token_type token_type ≡ ok u) ↔ IsAuthType token_type
unfolding check_token_type
check_token_type_iff none u = (λ h. inl refl, λ a. refl)
check_token_type_iff (some t) u = (
  λ h. inr (ap some ((==_iff t (codes "auth")).0 (ensure_ok _ _ h))),
  λ a. elim a [
    | inl e ↦ absurd (no_type e)
    | inr e ↦ rw ((==_iff t (codes "auth")).1 (same e)) refl
  ],
)
  where
    no_type : ◌≡◌ {A = Option Text} (some t) none → ⊥
    no_type x = cc

    same : ◌≡◌ {A = Option Text} (some t) (some (codes "auth")) → t ≡ codes "auth"
    same x = cc

module _ (sha256 : Text → Text) (now : ℕ) where
  check_database_iff :
      (db : Option Database) (token claimed user : Text)
      → (check_database sha256 now db token claimed ≡ ok user)
        ↔ (IsKnown sha256 now db token user × (claimed ≡ user))
  unfolding check_database
  check_database_iff none token claimed user = (λ h. (tt, cc), λ (k, e). ap ok e)
  check_database_iff (some db) token claimed user = (
    λ h.
        let (found, e, h1) =
          >>=-eq-ok (map_err database_error (db.find_token (sha256 token))) _ h in
        let (t, f, h2) = >>=-eq-ok (ok_or not_found found) _ h1 in
        let (valid, same) = (check_record_iff now claimed user t).0 h2 in
        (
          (t, map_err_ok database_error _ found e ∙ ap ok (ok_or_ok not_found found t f), valid),
          same,
        ),
    λ ((t, e, valid), same). rw e ((check_record_iff now claimed user t).1 (valid, same)),
  )

  -- The claims of a token that opens a tunnel for the user.
  abbrev pub IsGranted : Option Database → Text → Text → JwtClaims → Type 0
  IsGranted db token user claims =
      IsAuthType claims.token_type × (claims.user_id ≡ some user) × IsKnown sha256 now db token user

  check_claims_iff :
      (db : Option Database) (token user : Text) (claims : JwtClaims)
      → (check_claims sha256 now db token claims ≡ ok user) ↔ IsGranted db token user claims
  unfolding check_claims
  check_claims_iff db token user claims = (
    λ h.
        let (u, typed, h1) = >>=-eq-ok (check_token_type claims.token_type) _ h in
        let (claimed, owned, h2) = >>=-eq-ok (ok_or missing_user_id claims.user_id) _ h1 in
        let (known, same) = (check_database_iff db token claimed user).0 h2 in
        (
          (check_token_type_iff claims.token_type u).0 typed,
          ok_or_ok missing_user_id claims.user_id claimed owned ∙ ap some same,
          known,
        ),
    λ (typed, owned, known).
        rw ((check_token_type_iff claims.token_type tt).1 typed)
          (rw owned ((check_database_iff db token user user).1 (known, refl))),
  )

  -- With a validator, a token opens a tunnel for a user exactly if the validator accepts it with claims of
  -- the type `auth` or of no type that name the user, and, when there is a database, the database has an
  -- active record of the token's hash that has not expired and that belongs to this user.
  pub validate_auth_token_iff :
      (validate : Text → Result Text JwtClaims) (db : Option Database) (token user : Text)
      → (validate_auth_token sha256 now (some validate) db token ≡ ok user)
        ↔ ((claims : JwtClaims) × (validate token ≡ ok claims) × IsGranted db token user claims)
  unfolding validate_auth_token
  validate_auth_token_iff validate db token user = (
    λ h.
        let (claims, e, h1) = >>=-eq-ok (map_err invalid_jwt (validate token)) _ h in
        (
          claims,
          map_err_ok invalid_jwt (validate token) claims e,
          (check_claims_iff db token user claims).0 h1,
        ),
    λ (claims, e, granted). rw e ((check_claims_iff db token user claims).1 granted),
  )
