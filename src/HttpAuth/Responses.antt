-- ===== src/HttpAuth/Responses.antt =====
-- The responses to those who are not let in.
use localup.Base.{
  ℕ, ◌+◌, ◌≡◌, refl, Option, none, some, List, [], ◌∷◌, ◌++◌, arith, if◌then◌else◌, length, drop,
  length-append, nat_eq, list_eq, Bytes, Text, codes, starts_with, split_parts, parse_uint,
  digits_value,
}
use localup.HttpAuth.{header_auth, header_response, unauthorized_response}

-- What a client reads of a response: what follows the first empty line, and what the header that
-- announces the length of that says.
unfoldable pub body_of : Bytes → Option Bytes
body_of [] = none
body_of (c ∷ s) =
    if starts_with (13 ∷ 10 ∷ 13 ∷ 10 ∷ []) (c ∷ s) then some (drop 3 s) else body_of s

unfoldable pub announced : Bytes → Option ℕ
announced [] = none
announced (c ∷ s) =
    if starts_with (codes "Content-Length: ") (c ∷ s)
    then parse_uint 1000000 (split_parts 13 (drop 15 s)).0
    else announced s

-- The response to a request without the configured header announces 44 bytes, and its body has 34 more
-- than the header's name: they agree for names of ten characters only.
pub header_response-length :
    (header_name : Text) (values : List Text)
    → (announced (unauthorized_response (header_auth header_name values)) ≡ some 44)
      × (body : Bytes) × (body_of (unauthorized_response (header_auth header_name values))
          ≡ some body)
      × (length body ≡ length header_name + 34)
unfolding unauthorized_response header_response body_of announced starts_with parse_uint
    digits_value split_parts
header_response-length header_name values = (
  refl,
  codes "Authentication required (header: " ++ header_name ++ codes ")",
  refl,
  ground (arith, length-append header_name (codes ")")),
)
