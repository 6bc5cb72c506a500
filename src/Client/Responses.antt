-- ===== src/Client/Responses.antt =====
-- The parser of responses: `HttpResponseParser` of crates/localup-client/src/http_parser.rs. What httparse makes of
-- the bytes so far is a parameter; it is nothing for an incomplete head and for a wrong one. Times are in
-- milliseconds.
pub mod Ends
use localup.Base.{
  ◌||◌, unwrap_or, ℕ, ◌+◌, ◌-◌, Bool, true, false, not, ◌&&◌, Option, none, some, List, [], ◌++◌,
  ltb, leb, eqb, if◌then◌else◌, is_some, length, drop, Bytes, Text,
}
use localup.Client.Chunks.{check_chunked_complete}
use localup.Client.Heads.{Values, Framing, read_headers}

-- What httparse finds in a complete head, and the length of the head.
pub record ResponseHead : Type 0 where
  pub head_code : Option ℕ
  pub head_version : Option ℕ
  pub head_reason : Option Text
  pub head_headers : List (Text × Bytes)
  pub consumed : ℕ

pub record ParsedResponse : Type 0 where
  pub status : ℕ
  pub version : ℕ
  pub reason : Text
  pub headers : List (Text × Text)
  pub header_len : ℕ
  pub content_length : Option ℕ
  pub is_chunked : Bool
  pub no_body : Bool

-- The decoder for chunks in the source is not used by anything and has no field here.
pub record HttpResponseParser : Type 0 where
  pub buffer : Bytes
  pub parsed : Option ParsedResponse
  pub body_received : ℕ
  pub complete : Bool
  pub last_data_time : Option ℕ
  pub has_unknown_length : Bool

unfoldable pub new : HttpResponseParser
new = record {
  buffer = [];
  parsed = none;
  body_received = 0;
  complete = false;
  last_data_time = none;
  has_unknown_length = false;
}

abbrev pub idle_timeout_ms : ℕ
idle_timeout_ms = 100

unfoldable pub has_no_body : ℕ → Bool
has_no_body status = leb 100 status && leb status 199 || eqb status 204 || eqb status 304

-- Whether the connection was closed does not matter to a response that is complete.
unfoldable pub mark_complete : HttpResponseParser → HttpResponseParser
mark_complete p = record p { complete = true }

-- A parser for the next response of the connection.
unfoldable pub reset : HttpResponseParser → HttpResponseParser
reset p = new

unfoldable pub body_data : HttpResponseParser → Option Bytes
body_data p = elim p.parsed [ none ↦ none | some r ↦ some (drop r.header_len p.buffer) ]

abbrev pub is_idle : ℕ → Option ℕ → Bool
is_idle now none = false
is_idle now (some last) = leb idle_timeout_ms (now - last)

-- The clock is monotonic, so `now` is not before the last data.
unfoldable pub is_complete : ℕ → HttpResponseParser → Bool
is_complete now p =
    p.complete || is_some p.parsed && ltb 0 p.body_received && is_idle now p.last_data_time

module _ (values : Values) (parse : Bytes → Option ResponseHead) where
  abbrev pub parsed_response : ResponseHead → ParsedResponse
  parsed_response h =
      let (headers, f) =
        read_headers values (record { content_length = none; is_chunked = false }) h.head_headers in
      record {
        status = unwrap_or 0 h.head_code;
        version = unwrap_or 1 h.head_version;
        reason = unwrap_or [] h.head_reason;
        headers = headers;
        header_len = h.consumed;
        content_length = f.content_length;
        is_chunked = f.is_chunked;
        no_body = has_no_body (unwrap_or 0 h.head_code);
      }

  unfoldable pub try_parse_headers : Bytes → Option ParsedResponse
  try_parse_headers buffer = elim (parse buffer) [
    | none ↦ none
    | some head ↦ some (parsed_response head)
  ]

  abbrev pub is_unknown : ParsedResponse → Bool
  is_unknown r = not r.no_body && not (is_some r.content_length) && not r.is_chunked

  -- Whether the response is complete when its head is, with the rest of the buffer as its body.
  unfoldable pub is_complete_at_head : ParsedResponse → Bytes → Bool
  is_complete_at_head r body = if r.no_body then true else elim r.content_length [
    | some n ↦ eqb n 0 || leb n (length body)
    | none ↦
        if r.is_chunked
        then ltb 0 (length body) && check_chunked_complete body
        else eqb (length body) 0
  ]

  abbrev pub with_head : HttpResponseParser → Bytes → Option ParsedResponse → HttpResponseParser
  with_head p buffer none = record p { buffer = buffer }
  with_head p buffer (some r) =
      let body = drop r.header_len buffer in
      record {
        buffer = buffer;
        parsed = some r;
        body_received = length buffer - r.header_len;
        complete = is_complete_at_head r body;
        last_data_time = p.last_data_time;
        has_unknown_length = is_unknown r || p.has_unknown_length;
      }

  abbrev pub reached : Option ℕ → ℕ → Bool → Bool
  reached none received before = before
  reached (some n) received before = leb n received || before

  -- Data that arrives after the head.
  unfoldable pub read_body : HttpResponseParser → ParsedResponse → Bytes → HttpResponseParser
  read_body p r input =
      if r.is_chunked
      then record p {
        buffer = p.buffer ++ input;
        complete = check_chunked_complete (drop r.header_len (p.buffer ++ input));
      }
      else record p {
        body_received = p.body_received + length input;
        complete = reached r.content_length (p.body_received + length input) p.complete;
      }

  -- The number of bytes that feed returns is that of the data, or 0 if the response is complete.
  unfoldable pub feed : ℕ → HttpResponseParser → Bytes → HttpResponseParser
  feed now p input =
      if p.complete
      then p
      else let p' = record p { last_data_time = some now } in
        elim p'.parsed [
          | none ↦ let buffer = p'.buffer ++ input in with_head p' buffer (try_parse_headers buffer)
          | some r ↦ read_body p' r input
        ]
