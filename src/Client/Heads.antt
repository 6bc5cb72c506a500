-- ===== src/Client/Heads.antt =====
-- The head of a message: the loops over the headers in `try_parse_headers` of both parsers of
-- crates/localup-client/src/http_parser.rs. The parser of heads is the crate httparse; its answers, and the
-- Unicode functions on texts, are parameters.
use localup.Base.{
  ◌||◌, ℕ, ◌+◌, ◌-◌, ◌^◌, Bool, ◌&&◌, Option, List, [], ◌∷◌, leb, if◌then◌else◌, ◌==◌, nat_eq,
  list_eq, Bytes, Text, codes, contains_text, parse_uint,
}

-- The functions of the standard library on the value of a header.
pub record Values : Type 0 where
  pub from_utf8_lossy : Bytes → Text
  pub to_lowercase : Text → Text
  pub trim : Text → Text

-- The largest usize.
abbrev pub usize_max : ℕ
usize_max = 2 ^ 64 - 1

unfoldable pub ascii_lower : Text → Text
ascii_lower [] = []
ascii_lower (c ∷ s) = (if leb b'A' c && leb c b'Z' then c + 32 else c) ∷ ascii_lower s

unfoldable pub eq_ignore_ascii_case : Text → Text → Bool
eq_ignore_ascii_case s t = ascii_lower s == ascii_lower t

-- The length and the chunks that the headers announce.
pub record Framing : Type 0 where
  pub content_length : Option ℕ
  pub is_chunked : Bool

module _ (values : Values) where
  unfoldable pub read_header : Framing → Text → Text → Framing
  read_header f name value = record {
    content_length =
        if eq_ignore_ascii_case name (codes "content-length")
        then parse_uint usize_max (values.trim value)
        else f.content_length;
    is_chunked =
        eq_ignore_ascii_case name (codes "transfer-encoding")
          && contains_text (codes "chunked") (values.to_lowercase value)
        || f.is_chunked;
  }

  -- The loop: the headers as texts, and what they announce.
  unfoldable pub read_headers : Framing → List (Text × Bytes) → List (Text × Text) × Framing
  read_headers f [] = ([], f)
  read_headers f ((name, bytes) ∷ headers) =
      let value = values.from_utf8_lossy bytes in
      let (rest, announced) = read_headers (read_header f name value) headers in
      ((name, value) ∷ rest, announced)
