-- ===== src/HttpAuth/Tests.antt =====
-- The authentication on one request, and the lengths of the responses.
use localup.Base.{
  ℕ, ◌+◌, ◌≡◌, refl, ◌↔◌, ◌&&◌, Option, none, some, List, [], ◌∷◌, leb, if◌then◌else◌, length, ◌==◌,
  nat_eq, list_eq, Bytes, Text, codes, starts_with, split_parts, parse_uint, digits_value,
}
use localup.Base.Utf8.{is_utf8}
use localup.HttpAuth.{
  basic_config, authenticated, from_config, escape_quotes, basic_response, bearer_response,
  no_auth_response, extract_credentials, accepts, check_headers, authenticate,
}
use localup.HttpAuth.Verdicts.{IsEntitled, authenticate_iff}
use localup.HttpAuth.Responses.{body_of, announced}

-- ASCII lower case, no trimming, and a decoder that knows one text: enough for a request.
unfoldable lower : Text → Text
lower [] = []
lower (c ∷ s) = (if leb 65 c && leb c 90 then c + 32 else c) ∷ lower s

abbrev decode_one : Text → Option Bytes
decode_one s = if s == codes "dTpw" then some (codes "u:p") else none

abbrev request : List (Text × Text)
request = (codes "Accept", codes "text/html") ∷ (codes "AUTHORIZATION", codes "Basic dTpw") ∷ []

let_in :
    authenticate lower (λ s. s) decode_one (from_config (basic_config (codes "u:p" ∷ []))) request
    ≡ authenticated
unfolding authenticate from_config check_headers accepts extract_credentials lower starts_with
    is_utf8
let_in = refl

authenticate_iff_example :
    (authenticate lower (λ s. s) decode_one (from_config (basic_config (codes "u:p" ∷ []))) request
      ≡ authenticated)
    ↔ IsEntitled lower (λ s. s) decode_one (basic_config (codes "u:p" ∷ [])) request
authenticate_iff_example =
    authenticate_iff lower (λ s. s) decode_one (basic_config (codes "u:p" ∷ [])) request

-- The responses of the Basic and the Bearer provider announce one byte more than they have.
abbrev length_of : Option Bytes → ℕ
length_of none = 0
length_of (some body) = length body

basic_announced :
    (announced (basic_response (codes "localup")) ≡ some 32)
    × (length_of (body_of (basic_response (codes "localup"))) ≡ 31)
unfolding announced body_of basic_response escape_quotes starts_with parse_uint digits_value
    split_parts
basic_announced = (refl, refl)

bearer_announced :
    (announced bearer_response ≡ some 33) × (length_of (body_of bearer_response) ≡ 32)
unfolding announced body_of bearer_response starts_with parse_uint digits_value split_parts
bearer_announced = (refl, refl)

no_auth_announced :
    (announced no_auth_response ≡ some 12) × (length_of (body_of no_auth_response) ≡ 12)
unfolding announced body_of no_auth_response starts_with parse_uint digits_value split_parts
no_auth_announced = (refl, refl)
