-- ===== src/Servers/Requests.antt =====
-- The text of a request, and what becomes of it: what handle_connection of
-- crates/localup-server-https/src/server.rs and of crates/localup-server-tcp/src/server.rs share, with
-- `parse_headers_from_request` and `requires_auth` of crates/localup-http-auth/src/lib.rs.
-- The Unicode functions of the standard library and the decoder of base64 are fields of a parameter; so is
-- the query for the answer to an ACME challenge.
pub mod Passing
use localup.Base.{
  ℕ, Bool, true, false, Option, none, some, List, [], ◌∷◌, eqb, if◌then◌else◌, is_empty, ◌==◌,
  nat_eq, list_eq, Bytes, Text, codes, starts_with, split_once, split_parts, Result, ok, err, ◌>>=◌,
  ◌>>◌, ok_or,
}
use localup.HttpAuth.{
  Provider, no_auth, basic_auth, bearer_token, header_auth, AuthResult, authenticated, unauthorized,
  authenticate,
}
use localup.Control.Connections.{Connections, get_http_authenticator, get}

pub record Texts : Type 0 where
  pub from_utf8_lossy : Bytes → Text
  pub to_lowercase : Text → Text
  pub trim : Text → Text
  pub split_whitespace : Text → List Text
  pub decode_base64 : Text → Option Bytes

-- `strip_suffix("\r")`
abbrev pub strip_cr : Text → Text
strip_cr [] = []
strip_cr (c ∷ []) = if eqb c 13 then [] else c ∷ []
strip_cr (c ∷ d ∷ s) = c ∷ strip_cr (d ∷ s)

-- The lines of the parts between line feeds: the last one has no line feed behind it.
unfoldable pub lines_of : Text → List Text → List Text
lines_of part [] = if is_empty part then [] else part ∷ []
lines_of part (next ∷ parts) = strip_cr part ∷ lines_of next parts

-- str::lines
unfoldable pub lines : Text → List Text
lines s = lines_of (split_parts 10 s).0 (split_parts 10 s).1

-- `strip_prefix`
unfoldable pub strip_prefix : Text → Text → Option Text
strip_prefix [] s = some s
strip_prefix (p ∷ ps) [] = none
strip_prefix (p ∷ ps) (c ∷ s) = if p == c then strip_prefix ps s else none

-- The answers that end a request without a tunnel.
pub data Reply : Type 0 where
  no_host not_found denied not_a_tunnel not_configured tunnel_missing closed : Reply
  acme_answer : Text → Reply
  rejected : Bytes → Reply

-- Where a request goes: to the connection of a tunnel, or to an address.
pub data Forward : Type 0 where
  to_tunnel : ℕ → Forward
  to_address : Text → Forward

-- A header of a line
abbrev pub header_of : (Text → Text) → Text → List (Text × Text) → List (Text × Text)
header_of trim line rest = elim (split_once b':' line) [
  | none ↦ rest
  | some (name, value) ↦ (trim name, trim value) ∷ rest
]

-- The headers of the lines up to an empty one.
unfoldable pub headers_of : (Text → Text) → List Text → List (Text × Text)
headers_of trim [] = []
headers_of trim (line ∷ lines) =
    let rest = headers_of trim lines in if is_empty line then [] else header_of trim line rest

abbrev pub skip_line : List Text → List Text
skip_line [] = []
skip_line (line ∷ lines) = lines

unfoldable pub parse_headers_from_request : Texts → Bytes → List (Text × Text)
parse_headers_from_request t data_bytes =
    headers_of t.trim (skip_line (lines (t.from_utf8_lossy data_bytes)))

unfoldable pub requires_auth : Provider → Bool
requires_auth no_auth = false
requires_auth (basic_auth credentials realm) = true
requires_auth (bearer_token tokens) = true
requires_auth (header_auth name values) = true

-- `line.split(':').nth(1)`
abbrev pub second_part : List Text → Option Text
second_part [] = none
second_part (p ∷ parts) = some p

-- The value of the first line that starts with `host:`, up to a second colon.
unfoldable pub host_value : Texts → List Text → Option Text
host_value t [] = none
host_value t (line ∷ lines) =
    let rest = host_value t lines in
    if starts_with (codes "host:") (t.to_lowercase line)
    then elim (second_part (split_parts b':' line).1) [ none ↦ none | some h ↦ some (t.trim h) ]
    else rest

abbrev pub path_of : List Text → Text
path_of [] = codes "/"
path_of (word ∷ []) = codes "/"
path_of (word ∷ path ∷ words) = path

unfoldable pub request_path : Texts → List Text → Text
request_path t [] = codes "/"
request_path t (line ∷ lines) = path_of (t.split_whitespace line)

-- The answer that the database has for a challenge, if there is a database: an error of the query counts as
-- none.
abbrev pub Challenges : Type 0
Challenges = Option (Text → Text → Result Text (Option Text))

abbrev pub answer_of : Result Text (Option Text) → Option Text
answer_of (ok answer) = answer
answer_of (err e) = none

abbrev pub answer_token : Challenges → Text → Option Text → Option Text
answer_token challenges host none = none
answer_token none host (some token) = none
answer_token (some lookup_acme_challenge) host (some token) =
    if is_empty token then none else answer_of (lookup_acme_challenge host token)

unfoldable pub acme : Challenges → Text → Text → Option Text
acme challenges host path =
    answer_token challenges host (strip_prefix (codes "/.well-known/acme-challenge/") path)

abbrev pub continue : Option Text → Result Reply (Unit {0})
continue none = ok tt
continue (some key_auth) = err (acme_answer key_auth)

abbrev pub admitted : AuthResult → Result Reply (Unit {0})
admitted authenticated = ok tt
admitted (unauthorized response) = err (rejected response)

abbrev pub check_provider : Texts → List (Text × Text) → Option Provider → Result Reply (Unit {0})
check_provider t headers none = ok tt
check_provider t headers (some provider) =
    if requires_auth provider
    then admitted (authenticate t.to_lowercase t.trim t.decode_base64 provider headers)
    else ok tt

-- The first part of `handle_localup_request`: the authentication, and the connection of the tunnel.
unfoldable pub find_connection : Texts → Connections → Text → Bytes → Result Reply ℕ
find_connection t manager localup_id request_bytes = do
  check_provider t (parse_headers_from_request t request_bytes)
      (get_http_authenticator manager localup_id)
  ok_or tunnel_missing (get manager localup_id)
