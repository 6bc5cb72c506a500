-- ===== src/HttpAuth/Verdicts.antt =====
-- Whom the providers let in.
use localup.Base.{
  ◌≡◌, refl, sym, subst, ◌↔◌, inl, inr, Bool, true, false, ◌&&◌, Option, none, some, List, [], ◌∷◌,
  arith, Bool-cases, any, Any, here, there, ◌==◌, ==_iff, nat_eq, list_eq, Bytes, Text, codes,
}
use localup.HttpAuth.{
  Provider, basic_auth, bearer_token, header_auth, HttpAuthConfig, no_config, basic_config,
  bearer_config, header_config, authenticated, from_config, has_value, is_valid,
  extract_credentials, extract_token, accepts, check_headers, authenticate,
}

module _ {A : Type 0} (test : A → Bool) (P : A → Type 0)
    (test_iff : (x : A) → (test x ≡ true) ↔ P x) where
  any-cons :
      (x : A) (xs : List A)
      → (any test xs ≡ true) ↔ Any P xs
      → (any test (x ∷ xs) ≡ true) ↔ Any P (x ∷ xs)
  any-cons x xs ih = (forth, back)
    where
      forth : any test (x ∷ xs) ≡ true → Any P (x ∷ xs)
      forth e = elim (Bool-cases (test x)) [
        | inl hit ↦ here ((test_iff x).0 hit)
        | inr miss ↦ there (ih.0 (rw miss at e))
      ]

      back : Any P (x ∷ xs) → any test (x ∷ xs) ≡ true
      back (here p) = rw ((test_iff x).1 p)
      back (there a) = ground (arith, ih.1 a)

  any_iff : (xs : List A) → (any test xs ≡ true) ↔ Any P xs
  any_iff [] = (λ e. cc, λ a. elim a [ ])
  any_iff (x ∷ xs) = any-cons x xs (any_iff xs)

pub has_value_iff :
    (set : List Text) (value : Text) → (has_value set value ≡ true) ↔ Any (λ v. v ≡ value) set
has_value_iff set value = any_iff (λ v. v == value) (λ v. v ≡ value) (λ v. ==_iff v value) set

is_valid_iff :
    (allowed : List Text) (o : Option Text)
    → (is_valid allowed o ≡ true)
      ↔ ((secret : Text) × (o ≡ some secret) × Any (λ v. v ≡ secret) allowed)
is_valid_iff allowed none = (λ e. cc, λ (s, e, a). absurd (nothing e))
  where
    nothing : {s : Text} → ◌≡◌ {A = Option Text} none (some s) → ⊥
    nothing e = cc
is_valid_iff allowed (some value) = (
  λ e. (value, refl, (has_value_iff allowed value).0 e),
  λ (s, e, a).
      (has_value_iff allowed value).1 (subst (λ x. Any (λ v. v ≡ x) allowed) (sym (same e)) a),
)
  where
    same : {s : Text} → some value ≡ some s → value ≡ s
    same e = cc

-- Two tests, both of them passed
and_iff :
    {P Q : Type 0} (a b : Bool) → ((a ≡ true) ↔ P) → ((b ≡ true) ↔ Q) → ((a && b ≡ true) ↔ (P × Q))
and_iff true b p q = (λ e. (p.0 refl, q.0 e), λ (x, y). q.1 y)
and_iff false b p q = (λ e. cc, λ (x, y). p.1 x)

module _ (to_lowercase trim : Text → Text) (decode_base64 : Text → Option Bytes) where
  -- The text is the value of an Authorization header of the scheme, of what `extract` makes of it.
  abbrev pub Presents : (Text → Option Text) → List Text → Text × Text → Type 0
  Presents extract allowed header =
      (to_lowercase header.0 ≡ codes "authorization")
      × ((secret : Text) × (extract header.1 ≡ some secret) × Any (λ v. v ≡ secret) allowed)

  -- Who is let in: everyone, or those with an allowed secret in some header.
  abbrev pub IsEntitled : HttpAuthConfig → List (Text × Text) → Type 0
  IsEntitled no_config headers = Unit
  IsEntitled (basic_config credentials) headers =
      Any (Presents (extract_credentials to_lowercase trim decode_base64) credentials) headers
  IsEntitled (bearer_config tokens) headers =
      Any (Presents (extract_token to_lowercase trim decode_base64) tokens) headers
  IsEntitled (header_config name values) headers =
      Any (λ h. (to_lowercase h.0 ≡ to_lowercase name) × Any (λ v. v ≡ h.1) values) headers

  check_headers-any :
      (p : Provider) (headers : List (Text × Text))
      → (check_headers to_lowercase trim decode_base64 p headers ≡ authenticated)
        ↔ (any (accepts to_lowercase trim decode_base64 p) headers ≡ true)
  unfolding check_headers
  check_headers-any p [] = (λ e. cc, λ e. cc)
  check_headers-any p (h ∷ headers) =
      elim (Bool-cases (accepts to_lowercase trim decode_base64 p h)) [
        | inl e ↦ rw e (λ x. refl, λ x. refl)
        | inr e ↦ rw e (check_headers-any p headers)
      ]

  by_headers :
      (p : Provider) (P : Text × Text → Type 0)
      → ((h : Text × Text) → (accepts to_lowercase trim decode_base64 p h ≡ true) ↔ P h)
      → (headers : List (Text × Text))
      → (check_headers to_lowercase trim decode_base64 p headers ≡ authenticated) ↔ Any P headers
  by_headers p P iff headers =
      let (to, from) = check_headers-any p headers in
      let (to', from') = any_iff (accepts to_lowercase trim decode_base64 p) P iff headers in
      (λ e. to' (to e), λ a. from (from' a))

  -- A request is let in exactly if no authentication is configured, or some Authorization header presents
  -- one of the configured secrets in the configured scheme, or some header of the configured name has one
  -- of the configured values; names of headers are compared in lower case.
  pub authenticate_iff :
      (config : HttpAuthConfig) (headers : List (Text × Text))
      → (authenticate to_lowercase trim decode_base64 (from_config config) headers ≡ authenticated)
        ↔ IsEntitled config headers
  unfolding authenticate from_config accepts
  authenticate_iff no_config headers = (λ e. tt, λ t. refl)
  authenticate_iff (basic_config credentials) headers =
      by_headers (basic_auth credentials (codes "localup")) _
        (λ (name, value).
          and_iff _ _ (==_iff (to_lowercase name) (codes "authorization"))
            (is_valid_iff credentials _))
        headers
  authenticate_iff (bearer_config tokens) headers =
      by_headers (bearer_token tokens) _
        (λ (name, value).
          and_iff _ _ (==_iff (to_lowercase name) (codes "authorization")) (is_valid_iff tokens _))
        headers
  authenticate_iff (header_config header_name values) headers =
      by_headers (header_auth header_name values) _
        (λ (name, value).
          and_iff _ _ (==_iff (to_lowercase name) (to_lowercase header_name))
            (has_value_iff values value))
        headers
