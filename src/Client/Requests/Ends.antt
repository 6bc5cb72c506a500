-- ===== src/Client/Requests/Ends.antt =====
-- The end of a chunked request.
use localup.Base.{◌≡◌, ap, ◌∙◌, true, Option, none, some, ◌++◌, drop, Bytes}
use localup.Client.Chunks.{last_size, crlf, check_chunked_complete}
use localup.Client.Chunks.Laws.{check_chunked_complete_early}
use localup.Client.Heads.{Values}
use localup.Client.Requests.{RequestHead, ParsedRequest, new, try_parse_headers, with_head, feed}
use localup.Client.Requests.Verdicts.{is_complete_at_head-chunked}

module _ (values : Values) (parse : Bytes → Option RequestHead) where
  -- A request that announces chunks and no length, and arrives at once, is taken for complete when a line
  -- ends in its body behind a size line that ends with the digit 0, whatever chunks are still to come.
  pub feed-unfinished :
      (bytes size chunk rest : Bytes) (r : ParsedRequest)
      → try_parse_headers values parse bytes ≡ some r
      → r.is_chunked ≡ true
      → r.content_length ≡ none
      → drop r.header_len bytes ≡ size ++ (last_size ++ (chunk ++ (crlf ++ rest)))
      → (feed values parse new bytes).complete ≡ true
  unfolding feed new
  feed-unfinished bytes size chunk rest r head chunked none_given body =
      ap (λ t. (with_head values parse bytes t).complete) head
      ∙ is_complete_at_head-chunked values parse r (drop r.header_len bytes) none_given chunked
      ∙ ap check_chunked_complete body
      ∙ check_chunked_complete_early size chunk rest
