-- ===== src/Client/Chunks.antt =====
-- The end of a chunked body: `check_chunked_complete` of crates/localup-client/src/http_parser.rs, which
-- the parsers of requests and of responses have in common.
pub mod Laws
use localup.Base.{
  ◌||◌, Bool, false, Option, none, some, [], ◌∷◌, ◌++◌, if◌then◌else◌, drop, Bytes, starts_with,
  ends_with, contains_text,
}

abbrev pub crlf : Bytes
crlf = 13 ∷ 10 ∷ []

-- `0` and the end of its line
abbrev pub last_size : Bytes
last_size = b'0' ∷ crlf

-- What follows the first window of three bytes that is `last_size`.
unfoldable pub after_size : Bytes → Option Bytes
after_size [] = none
after_size (c ∷ body) =
    let later = after_size body in
    if starts_with last_size (c ∷ body) then some (drop 2 body) else later

abbrev pub has_end : Option Bytes → Bool
has_end none = false
has_end (some after) = contains_text crlf after

unfoldable pub check_chunked_complete : Bytes → Bool
check_chunked_complete body = ends_with (last_size ++ crlf) body || has_end (after_size body)
