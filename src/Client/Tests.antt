-- ===== src/Client/Tests.antt =====
-- A request and a response in pieces.
use localup.Base.{
  ℕ, ◌≡◌, refl, sym, ◌∙◌, true, false, Option, none, some, List, [], ◌∷◌, arith, Bytes, Text, codes,
  starts_with, contains_text, parse_uint,
}
use localup.Client.Heads.{Values, ascii_lower, eq_ignore_ascii_case, read_header, read_headers}
use localup.Client.Requests.{RequestHead, ParsedRequest, new, try_parse_headers, feed, feed_all}
use localup.Client.Requests.Verdicts.{IsStable, IsUnambiguous}
use localup.Client.Requests.Pieces.{concat, feed_all-concat}
use localup.Client.Requests.Ends.{feed-unfinished}
use localup.Client.Responses
use localup.Client.Responses.{ResponseHead, ParsedResponse, has_no_body, is_complete, body_data}
use localup.Client.Responses.Ends
use localup.Client.Responses.Ends.{last_time, feed_all-head_alone, feed_all-with_body_iff}

abbrev values : Values
values = record { from_utf8_lossy = λ s. s; to_lowercase = ascii_lower; trim = λ s. s }

abbrev chunked_headers : List (Text × Bytes)
chunked_headers = (codes "Transfer-Encoding", codes "Chunked") ∷ []

-- A head of one byte, with chunks announced.
abbrev request_head : RequestHead
request_head = record {
  head_method = some (codes "POST");
  head_path = some (codes "/");
  head_version = some 1;
  head_headers = chunked_headers;
  consumed = 1;
}

unfoldable parse_request : Bytes → Option RequestHead
parse_request [] = none
parse_request (b ∷ bytes) = some request_head

parse_request-IsStable : IsStable values parse_request
unfolding parse_request
parse_request-IsStable [] b head h = absurd (cc h)
parse_request-IsStable (c ∷ a) b head h = let e : 1 ≡ head.consumed = cc h in (h, omega (arith, e))

abbrev request : ParsedRequest
request = record {
  method = codes "POST";
  path = codes "/";
  version = 1;
  headers = chunked_headers;
  header_len = 1;
  content_length = none;
  is_chunked = true;
}

request_parsed :
    (bytes : Bytes) → try_parse_headers values parse_request (b'H' ∷ bytes) ≡ some request
unfolding try_parse_headers read_headers read_header eq_ignore_ascii_case ascii_lower contains_text
    starts_with parse_uint parse_request
request_parsed bytes = refl

unambiguous : IsUnambiguous values parse_request (codes "H3\r\nabc\r\n0\r\n\r\n")
unambiguous r e chunked =
    let both = sym (request_parsed (codes "3\r\nabc\r\n0\r\n\r\n")) ∙ e in
    let length_of : none ≡ r.content_length = cc both in sym length_of

feed_all-concat_example :
    ((feed_all values parse_request new
        (codes "H3" ∷ codes "\r\nabc\r\n0\r\n" ∷ codes "\r\n" ∷ [])).complete
      ≡ (feed values parse_request new (codes "H3\r\nabc\r\n0\r\n\r\n")).complete)
    × ((feed_all values parse_request new
          (codes "H3" ∷ codes "\r\nabc\r\n0\r\n" ∷ codes "\r\n" ∷ [])).parsed
        ≡ (feed values parse_request new (codes "H3\r\nabc\r\n0\r\n\r\n")).parsed)
unfolding concat
feed_all-concat_example =
    feed_all-concat values parse_request parse_request-IsStable (codes "H3")
      (codes "\r\nabc\r\n0\r\n" ∷ codes "\r\n" ∷ []) unambiguous

feed-unfinished_example : (feed values parse_request new (codes "H10\r\nabc\r\nde")).complete ≡ true
feed-unfinished_example =
    feed-unfinished values parse_request (codes "H10\r\nabc\r\nde") (codes "1") (codes "abc")
      (codes "de") request (request_parsed (codes "10\r\nabc\r\nde")) refl refl refl

-- A head of two bytes that announces nothing.
abbrev response_head : ResponseHead
response_head = record {
  head_code = some 200;
  head_version = some 1;
  head_reason = some (codes "OK");
  head_headers = [];
  consumed = 2;
}

unfoldable parse_response : Bytes → Option ResponseHead
parse_response (a ∷ b ∷ bytes) = some response_head
parse_response (a ∷ []) = none
parse_response [] = none

abbrev response : ParsedResponse
response = record {
  status = 200;
  version = 1;
  reason = codes "OK";
  headers = [];
  header_len = 2;
  content_length = none;
  is_chunked = false;
  no_body = false;
}

response_parsed :
    (bytes : Bytes)
    → Responses.try_parse_headers values parse_response (b'H' ∷ b'T' ∷ bytes) ≡ some response
unfolding Responses.try_parse_headers read_headers has_no_body parse_response
response_parsed bytes = refl

abbrev two_pieces : List (ℕ × Bytes)
two_pieces = (20, codes "cd") ∷ (50, codes "e") ∷ []

feed_all-head_alone_example :
    (is_complete 60 (
        Ends.feed_all values parse_response
          (Responses.feed values parse_response 10 Responses.new (codes "HT"))
          two_pieces)
      ≡ true)
    × (body_data (
          Ends.feed_all values parse_response
            (Responses.feed values parse_response 10 Responses.new (codes "HT"))
            two_pieces)
        ≡ some [])
feed_all-head_alone_example =
    feed_all-head_alone values parse_response 10 (codes "HT") response two_pieces 60
      (response_parsed []) refl refl
