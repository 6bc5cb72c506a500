-- ===== src/Servers/Requests/Passing.antt =====
-- When a request passes the checks of a tunnel.
use localup.Base.{
  ℕ, ◌≡◌, refl, sym, ap, ◌∙◌, subst, ◌↔◌, inl, inr, Option, none, some, List, Option-cases, nat_eq,
  list_eq, lookup, Bytes, Text, Result, ok, err, ◌>>◌, >>=-eq-ok, iff_trans,
}
use localup.HttpAuth.{
  HttpAuthConfig, no_config, basic_config, bearer_config, header_config, from_config, AuthResult,
  authenticated, unauthorized,
}
use localup.HttpAuth.Verdicts.{IsEntitled, authenticate_iff}
use localup.Control.Connections.{TunnelConnection, Connections, get_http_authenticator, get}
use localup.Servers.Requests.{
  Texts, Reply, tunnel_missing, parse_headers_from_request, requires_auth, continue, admitted,
  check_provider, find_connection,
}

-- The tunnel has a connection, and the request presents what the tunnel's configuration asks for.
abbrev pub IsPassed : Texts → Connections → Text → Bytes → ℕ → Type 0
IsPassed t manager localup_id request_bytes connection =
    (c : TunnelConnection) × (lookup localup_id manager ≡ some c)
    × IsEntitled t.to_lowercase t.trim t.decode_base64 c.http_auth
        (parse_headers_from_request t request_bytes)
    × (c.connection ≡ connection)

admitted_iff : (a : AuthResult) (u : Unit {0}) → (admitted a ≡ ok u) ↔ (a ≡ authenticated)
admitted_iff authenticated u = (λ e. refl, λ e. refl)
admitted_iff (unauthorized response) u = (λ e. cc, λ e. cc)

-- Without a configuration no header is looked at; with one, the headers are judged.
config_iff :
    (t : Texts) (headers : List (Text × Text)) (config : HttpAuthConfig) (u : Unit {0})
    → (check_provider t headers (some (from_config config)) ≡ ok u)
      ↔ IsEntitled t.to_lowercase t.trim t.decode_base64 config headers
unfolding from_config requires_auth
config_iff t headers no_config u = (λ e. tt, λ e. refl)
config_iff t headers (basic_config credentials) u =
    iff_trans (admitted_iff _ u)
      (authenticate_iff t.to_lowercase t.trim t.decode_base64 (basic_config credentials) headers)
config_iff t headers (bearer_config tokens) u =
    iff_trans (admitted_iff _ u)
      (authenticate_iff t.to_lowercase t.trim t.decode_base64 (bearer_config tokens) headers)
config_iff t headers (header_config name values) u =
    iff_trans (admitted_iff _ u)
      (authenticate_iff t.to_lowercase t.trim t.decode_base64 (header_config name values) headers)

no_connection :
    (t : Texts) (manager : Connections) (id : Text) (request_bytes : Bytes) (connection : ℕ)
    → lookup id manager ≡ none
    → find_connection t manager id request_bytes ≡ ok connection
    → ⊥
unfolding find_connection get_http_authenticator get
no_connection t manager id request_bytes connection e h = refused (rw (e, find_connection) at h)
  where
    refused : ◌≡◌ {A = Result Reply ℕ} (err tunnel_missing) (ok connection) → ⊥
    refused x = cc

one_connection :
    (t : Texts) (manager : Connections) (id : Text) (request_bytes : Bytes) (c : TunnelConnection)
    → lookup id manager ≡ some c
    → find_connection t manager id request_bytes ≡ (
        check_provider t
          (parse_headers_from_request t request_bytes)
          (some (from_config c.http_auth))
        >> ok c.connection)
unfolding find_connection get_http_authenticator get
one_connection t manager id request_bytes c e = rw e refl

-- A request passes to a tunnel exactly if the tunnel has a connection, and the request presents what that
-- connection's configuration asks for.
pub find_connection_iff :
    (t : Texts) (manager : Connections) (id : Text) (request_bytes : Bytes) (connection : ℕ)
    → (find_connection t manager id request_bytes ≡ ok connection)
      ↔ IsPassed t manager id request_bytes connection
find_connection_iff t manager id request_bytes connection =
    let headers = parse_headers_from_request t request_bytes in
    elim (Option-cases (lookup id manager)) [
      | inl e ↦ (
        λ h. absurd (no_connection t manager id request_bytes connection e h),
        λ (c, found, entitled, is). absurd (nothing (sym e ∙ found)),
      )
      | inr (c, e) ↦
          let (to, from) = config_iff t headers c.http_auth tt in
          rw (one_connection t manager id request_bytes c e) (
            λ h.
                let (done, checked, same) =
                  >>=-eq-ok (check_provider t headers (some (from_config c.http_auth))) _ h in
                (c, e, to checked, cc),
            λ (d, found, entitled, is).
                let same : c ≡ d = one c d (sym e ∙ found) in
                rw
                  (from (
                    subst
                      (λ k. IsEntitled t.to_lowercase t.trim t.decode_base64 k.http_auth headers)
                      (sym same) entitled))
                  (ap ok (ap (λ k. k.connection) same ∙ is)),
          )
    ]
  where
    nothing : {c : TunnelConnection} → ◌≡◌ {A = Option TunnelConnection} none (some c) → ⊥
    nothing x = cc

    one : (c d : TunnelConnection) → ◌≡◌ {A = Option TunnelConnection} (some c) (some d) → c ≡ d
    one c d x = cc

pub continue_ok : (answer : Option Text) (u : Unit {0}) → continue answer ≡ ok u → answer ≡ none
continue_ok none u h = refl
continue_ok (some key) u h = cc
