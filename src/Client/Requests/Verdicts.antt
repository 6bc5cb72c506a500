-- ===== src/Client/Requests/Verdicts.antt =====
-- The head of a request, and the end of its body.
use localup.Base.{
  ℕ, ◌≤◌, ◌≡◌, refl, sym, ◌∙◌, inl, inr, true, false, Option, none, some, [], ◌∷◌, ◌++◌, arith,
  leb→le, le→leb, Bool-cases, Option-cases, length, length-append, Bytes, ends_with,
}
use localup.Client.Chunks.{after_size, check_chunked_complete}
use localup.Client.Chunks.Laws.{check_chunked_complete-append}
use localup.Client.Heads.{Values}
use localup.Client.Requests.{
  RequestHead, ParsedRequest, HttpRequestParser, parsed_request, try_parse_headers,
  is_complete_at_head, reached,
}

-- The empty body has no end.
check-empty : check_chunked_complete [] ≡ false
unfolding check_chunked_complete after_size ends_with
check-empty = refl

module _ (values : Values) (parse : Bytes → Option RequestHead) where
  -- httparse reads a head from its beginning, so more input does not change a complete one.
  abbrev pub IsStable : Type 0
  IsStable =
      (a b : Bytes) (head : RequestHead)
      → parse a ≡ some head
      → (parse (a ++ b) ≡ some head) × (head.consumed ≤ length a)

  -- The head, if there is one, does not announce both chunks and a length.
  abbrev pub IsUnambiguous : Bytes → Type 0
  IsUnambiguous bytes =
      (r : ParsedRequest)
      → try_parse_headers values parse bytes ≡ some r
      → r.is_chunked ≡ true
      → r.content_length ≡ none

  try_parse_headers-found :
      (a : Bytes) (head : RequestHead)
      → parse a ≡ some head
      → try_parse_headers values parse a ≡ some (parsed_request values parse head)
  unfolding try_parse_headers
  try_parse_headers-found a head e = rw (e, try_parse_headers) refl

  pub try_parse_headers-append :
      IsStable
      → (a b : Bytes) (r : ParsedRequest) → try_parse_headers values parse a ≡ some r
      → (try_parse_headers values parse (a ++ b) ≡ some r) × (r.header_len ≤ length a)
  unfolding try_parse_headers
  try_parse_headers-append stable a b r h = elim (Option-cases (parse a)) [
    | inl e ↦ ground (arith, e, h)
    | inr (head, e) ↦
        let (same, within) = stable a b head e in
        let q : some (parsed_request values parse head) ≡ some r =
          sym (try_parse_headers-found a head e) ∙ h in
        let len : head.consumed ≡ r.header_len = cc q in
        (try_parse_headers-found (a ++ b) head same ∙ q, omega arith)
  ]

  pub IsUnambiguous-prefix : IsStable → (a b : Bytes) → IsUnambiguous (a ++ b) → IsUnambiguous a
  IsUnambiguous-prefix stable a b u r e = u r (try_parse_headers-append stable a b r e).0

  -- A head without a length.
  pub is_complete_at_head-chunked :
      (r : ParsedRequest) (body : Bytes)
      → r.content_length ≡ none
      → r.is_chunked ≡ true
      → is_complete_at_head values parse r body ≡ check_chunked_complete body
  unfolding is_complete_at_head
  is_complete_at_head-chunked r [] none_given chunked =
      ground (arith, none_given, chunked, check-empty)
  is_complete_at_head-chunked r (b ∷ body) none_given chunked = ground (arith, none_given, chunked)

  pub is_complete_at_head-append :
      (r : ParsedRequest) (body more : Bytes)
      → is_complete_at_head values parse r body ≡ true
      → is_complete_at_head values parse r (body ++ more) ≡ true
  unfolding is_complete_at_head
  is_complete_at_head-append r body more h = elim (Option-cases r.content_length) [
    | inl e ↦ elim (Bool-cases r.is_chunked) [
      | inl chunked ↦
          is_complete_at_head-chunked r (body ++ more) e chunked
          ∙ check_chunked_complete-append body more
              (sym (is_complete_at_head-chunked r body e chunked) ∙ h)
      | inr plain ↦ ground (arith, e, plain)
    ]
    | inr (n, e) ↦ ground (
      arith,
      e,
      h,
      length-append body more,
      leb→le n (length body),
      le→leb n (length (body ++ more)),
    )
  ]

  -- Without chunks, the request is complete when the announced length is there.
  pub reached-is_complete_at_head :
      (p : HttpRequestParser) (r : ParsedRequest) (before body : Bytes) (received : ℕ)
      → r.is_chunked ≡ false
      → p.complete ≡ false
      → p.complete ≡ is_complete_at_head values parse r before
      → received ≡ length body
      → reached values parse r.content_length received p.complete
        ≡ is_complete_at_head values parse r body
  unfolding is_complete_at_head
  reached-is_complete_at_head p r before body received plain pending complete count =
      elim (Option-cases r.content_length) [
        | inl e ↦ absurd (ground (arith, e, plain, pending, complete))
        | inr (n, e) ↦ ground (arith, e, pending, count)
      ]
