-- ===== src/HttpAuth.antt =====
-- The authentication of requests: crates/localup-http-auth/src/{lib,basic,bearer,header}.rs.
pub mod Verdicts
pub mod Responses
mod Tests
use localup.Base.{
  Bool, true, false, not, ◌&&◌, Option, none, some, List, [], ◌∷◌, ◌++◌, eqb, if◌then◌else◌, drop,
  is_empty, any, ◌==◌, nat_eq, list_eq, Bytes, Text, codes, starts_with,
}
use localup.Base.Utf8.{is_utf8}

-- The providers; `BasicAuthProvider` has credentials and a realm, `HeaderAuthProvider` a name and values.
pub data Provider : Type 0 where
  no_auth : Provider
  basic_auth : List Text → Text → Provider
  bearer_token : List Text → Provider
  header_auth : Text → List Text → Provider

-- `HttpAuthConfig` of the protocol's messages
pub data HttpAuthConfig : Type 0 where
  no_config : HttpAuthConfig
  basic_config bearer_config : List Text → HttpAuthConfig
  header_config : Text → List Text → HttpAuthConfig

pub data AuthResult : Type 0 where
  authenticated : AuthResult
  unauthorized : Bytes → AuthResult

unfoldable pub from_config : HttpAuthConfig → Provider
from_config no_config = no_auth
from_config (basic_config credentials) = basic_auth credentials (codes "localup")
from_config (bearer_config tokens) = bearer_token tokens
from_config (header_config name values) = header_auth name values

abbrev crlf : Bytes
crlf = 13 ∷ 10 ∷ []

-- `replace('"', "\\\"")`
unfoldable pub escape_quotes : Text → Text
escape_quotes [] = []
escape_quotes (c ∷ s) = (if eqb c 34 then 92 ∷ 34 ∷ [] else c ∷ []) ++ escape_quotes s

unfoldable pub basic_response : Text → Bytes
basic_response realm =
    codes "HTTP/1.1 401 Unauthorized"
    ++ crlf
    ++ (codes "WWW-Authenticate: Basic realm=" ++ 34 ∷ (escape_quotes realm ++ 34 ∷ crlf))
    ++ (codes "Content-Type: text/plain" ++ crlf)
    ++ (codes "Content-Length: 32" ++ crlf)
    ++ crlf
    ++ codes "Authentication required (Basic)"

unfoldable pub bearer_response : Bytes
bearer_response =
    codes "HTTP/1.1 401 Unauthorized"
    ++ crlf
    ++ (codes "WWW-Authenticate: Bearer" ++ crlf)
    ++ (codes "Content-Type: text/plain" ++ crlf)
    ++ (codes "Content-Length: 33" ++ crlf)
    ++ crlf
    ++ codes "Authentication required (Bearer)"

unfoldable pub header_response : Text → Bytes
header_response header_name =
    codes "HTTP/1.1 401 Unauthorized"
    ++ crlf
    ++ (codes "Content-Type: text/plain" ++ crlf)
    ++ (codes "Content-Length: 44" ++ crlf)
    ++ crlf
    ++ (codes "Authentication required (header: " ++ header_name ++ codes ")")

unfoldable pub no_auth_response : Bytes
no_auth_response =
    codes "HTTP/1.1 401 Unauthorized"
    ++ crlf
    ++ (codes "Content-Length: 12" ++ crlf)
    ++ crlf
    ++ codes "Unauthorized"

unfoldable pub unauthorized_response : Provider → Bytes
unauthorized_response no_auth = no_auth_response
unauthorized_response (basic_auth credentials realm) = basic_response realm
unauthorized_response (bearer_token tokens) = bearer_response
unauthorized_response (header_auth name values) = header_response name

-- `HashSet::contains`
abbrev pub has_value : List Text → Text → Bool
has_value set value = any (λ v. v == value) set

-- A value that was extracted, if any, against the allowed ones
abbrev pub is_valid : List Text → Option Text → Bool
is_valid set none = false
is_valid set (some value) = has_value set value

-- The standard library's lower case and trimming, which know all of Unicode, and the decoder of base64
-- are parameters.
module _ (to_lowercase trim : Text → Text) (decode_base64 : Text → Option Bytes) where
  abbrev utf8_text : Option Bytes → Option Text
  utf8_text none = none
  utf8_text (some bytes) = if is_utf8 bytes then some bytes else none

  -- What is `basic ` in lower case is six ASCII characters, so the slice from the sixth byte is in range.
  unfoldable pub extract_credentials : Text → Option Text
  extract_credentials auth_header =
      if starts_with (codes "basic ") (to_lowercase auth_header)
      then utf8_text (decode_base64 (trim (drop 6 auth_header)))
      else none

  unfoldable pub extract_token : Text → Option Text
  extract_token auth_header =
      let token = trim (drop 7 auth_header) in
      if not (starts_with (codes "bearer ") (to_lowercase auth_header))
      then none
      else if is_empty token
      then none
      else some token

  -- The test that the loop over the headers makes of each; the first header that passes ends it.
  abbrev pub accepts_basic : List Text → Text × Text → Bool
  accepts_basic credentials (name, value) =
      (to_lowercase name == codes "authorization")
      && is_valid credentials (extract_credentials value)

  abbrev pub accepts_bearer : List Text → Text × Text → Bool
  accepts_bearer tokens (name, value) =
      (to_lowercase name == codes "authorization") && is_valid tokens (extract_token value)

  abbrev pub accepts_header : Text → List Text → Text × Text → Bool
  accepts_header header_name values (name, value) =
      (to_lowercase name == to_lowercase header_name) && has_value values value

  unfoldable pub accepts : Provider → Text × Text → Bool
  accepts no_auth header = true
  accepts (basic_auth credentials realm) header = accepts_basic credentials header
  accepts (bearer_token tokens) header = accepts_bearer tokens header
  accepts (header_auth header_name values) header = accepts_header header_name values header

  unfoldable pub check_headers : Provider → List (Text × Text) → AuthResult
  check_headers p [] = unauthorized (unauthorized_response p)
  check_headers p (header ∷ headers) =
      let rest = check_headers p headers in if accepts p header then authenticated else rest

  unfoldable pub authenticate : Provider → List (Text × Text) → AuthResult
  authenticate no_auth headers = authenticated
  authenticate (basic_auth credentials realm) headers =
      check_headers (basic_auth credentials realm) headers
  authenticate (bearer_token tokens) headers = check_headers (bearer_token tokens) headers
  authenticate (header_auth name values) headers = check_headers (header_auth name values) headers
