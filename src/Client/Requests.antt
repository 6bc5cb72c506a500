-- ===== src/Client/Requests.antt =====
-- The parser of requests: `HttpRequestParser` of crates/localup-client/src/http_parser.rs. What httparse makes of
-- the bytes so far is a parameter; it is nothing for an incomplete head and for a wrong one.
pub mod Verdicts
pub mod Pieces
pub mod Ends
use localup.Base.{
  ◌||◌, unwrap_or, ℕ, ◌+◌, ◌-◌, Bool, true, false, not, Option, none, some, List, [], ◌∷◌, ◌++◌,
  ltb, leb, if◌then◌else◌, length, drop, Bytes, Text,
}
use localup.Client.Chunks.{check_chunked_complete}
use localup.Client.Heads.{Values, Framing, read_headers}

-- What httparse finds in a complete head, and the length of the head.
pub record RequestHead : Type 0 where
  pub head_method : Option Text
  pub head_path : Option Text
  pub head_version : Option ℕ
  pub head_headers : List (Text × Bytes)
  pub consumed : ℕ

pub record ParsedRequest : Type 0 where
  pub method : Text
  pub path : Text
  pub version : ℕ
  pub headers : List (Text × Text)
  pub header_len : ℕ
  pub content_length : Option ℕ
  pub is_chunked : Bool

-- The decoder for chunks in the source is not used by anything and has no field here.
pub record HttpRequestParser : Type 0 where
  pub buffer : Bytes
  pub parsed : Option ParsedRequest
  pub body_received : ℕ
  pub complete : Bool

unfoldable pub new : HttpRequestParser
new = record { buffer = []; parsed = none; body_received = 0; complete = false }

-- A parser for the next request of the connection.
unfoldable pub reset : HttpRequestParser → HttpRequestParser
reset p = new

module _ (values : Values) (parse : Bytes → Option RequestHead) where
  abbrev pub parsed_request : RequestHead → ParsedRequest
  parsed_request h =
      let (headers, f) =
        read_headers values (record { content_length = none; is_chunked = false }) h.head_headers in
      record {
        method = unwrap_or [] h.head_method;
        path = unwrap_or [] h.head_path;
        version = unwrap_or 1 h.head_version;
        headers = headers;
        header_len = h.consumed;
        content_length = f.content_length;
        is_chunked = f.is_chunked;
      }

  unfoldable pub try_parse_headers : Bytes → Option ParsedRequest
  try_parse_headers buffer = elim (parse buffer) [
    | none ↦ none
    | some head ↦ some (parsed_request head)
  ]

  -- Whether the request is complete when its head is, with the rest of the buffer as its body.
  unfoldable pub is_complete_at_head : ParsedRequest → Bytes → Bool
  is_complete_at_head r body = elim r.content_length [
    | some n ↦ leb n (length body)
    | none ↦
        if not r.is_chunked
        then true
        else if ltb 0 (length body)
        then check_chunked_complete body
        else false
  ]

  abbrev pub with_head : Bytes → Option ParsedRequest → HttpRequestParser
  with_head buffer none = record {
    buffer = buffer;
    parsed = none;
    body_received = 0;
    complete = false;
  }
  with_head buffer (some r) =
      let body = drop r.header_len buffer in
      record {
        buffer = buffer;
        parsed = some r;
        body_received = length buffer - r.header_len;
        complete = is_complete_at_head r body;
      }

  abbrev pub reached : Option ℕ → ℕ → Bool → Bool
  reached none received before = before
  reached (some n) received before = leb n received || before

  -- Data that arrives after the head.
  unfoldable pub read_body : HttpRequestParser → ParsedRequest → Bytes → HttpRequestParser
  read_body p r input =
      if r.is_chunked
      then record p {
        buffer = p.buffer ++ input;
        complete = check_chunked_complete (drop r.header_len (p.buffer ++ input));
      }
      else record p {
        body_received = p.body_received + length input;
        complete = reached r.content_length (p.body_received + length input) p.complete;
      }

  -- The number of bytes that feed returns is that of the data, or 0 if the request is complete.
  unfoldable pub feed : HttpRequestParser → Bytes → HttpRequestParser
  feed p input = if p.complete then p else elim p.parsed [
    | none ↦ let buffer = p.buffer ++ input in with_head buffer (try_parse_headers buffer)
    | some r ↦ read_body p r input
  ]

  unfoldable pub feed_all : HttpRequestParser → List Bytes → HttpRequestParser
  feed_all p [] = p
  feed_all p (input ∷ pieces) = feed_all (feed p input) pieces
