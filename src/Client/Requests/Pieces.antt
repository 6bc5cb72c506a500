-- ===== src/Client/Requests/Pieces.antt =====
-- Requests that arrive in pieces.
use localup.Base.{
  ◌+◌, ◌-◌, ◌≤◌, ◌≡◌, refl, sym, ap, ◌∙◌, subst, inl, inr, Bool, true, false, Option, none, some,
  List, [], ◌∷◌, ◌++◌, append-nil, append_assoc, arith, Bool-cases, Option-cases, length, drop,
  length-append, length-drop, Bytes,
}
use localup.Client.Chunks.{check_chunked_complete}
use localup.Client.Chunks.Laws.{drop-before}
use localup.Client.Heads.{Values}
use localup.Client.Requests.{
  RequestHead, ParsedRequest, HttpRequestParser, new, try_parse_headers, is_complete_at_head,
  with_head, reached, read_body, feed, feed_all,
}
use localup.Client.Requests.Verdicts.{
  IsStable, IsUnambiguous, try_parse_headers-append, IsUnambiguous-prefix,
  is_complete_at_head-chunked, is_complete_at_head-append, reached-is_complete_at_head,
}

unfoldable pub concat : List Bytes → Bytes
concat [] = []
concat (input ∷ pieces) = input ++ concat pieces

module _ (values : Values) (parse : Bytes → Option RequestHead) where
  -- Whether the bytes so far are a complete request.
  abbrev verdict : Option ParsedRequest → Bytes → Bool
  verdict none total = false
  verdict (some r) total = is_complete_at_head values parse r (drop r.header_len total)

  abbrev Counted : HttpRequestParser → Option ParsedRequest → Bytes → Type 0
  Counted p none total = p.buffer ≡ total
  Counted p (some r) total =
      (r.is_chunked ≡ true → p.buffer ≡ total)
      × (r.is_chunked ≡ false → p.body_received ≡ length total - r.header_len)

  abbrev IsAfterHead : Option ParsedRequest → Bytes → HttpRequestParser → Type 0
  IsAfterHead t total p =
      (p.parsed ≡ t) × (p.complete ≡ verdict t total) × (p.complete ≡ false → Counted p t total)

  -- The parser after the bytes `total`.
  abbrev IsAfter : Bytes → HttpRequestParser → Type 0
  IsAfter total p = IsAfterHead (try_parse_headers values parse total) total p

  with_head-IsAfter :
      (total : Bytes)
      → IsAfter total (with_head values parse total (try_parse_headers values parse total))
  with_head-IsAfter total =
      elim (try_parse_headers values parse total)
        as (λ t. IsAfterHead t total (with_head values parse total t)) [
          | none ↦ (refl, refl, λ _. refl)
          | some r ↦ (refl, refl, λ _. ((λ _. refl), (λ _. refl)))
        ]

  feed-done :
      (p : HttpRequestParser) (input : Bytes) → p.complete ≡ true → feed values parse p input ≡ p
  unfolding feed
  feed-done p input done = rw done refl

  feed-head :
      (p : HttpRequestParser) (input : Bytes)
      → p.complete ≡ false
      → p.parsed ≡ none
      → feed values parse p input
        ≡ with_head values parse
            (p.buffer ++ input)
            (try_parse_headers values parse (p.buffer ++ input))
  unfolding feed
  feed-head p input pending e = rw (pending, e) refl

  feed-body :
      (p : HttpRequestParser) (input : Bytes) (r : ParsedRequest)
      → p.complete ≡ false
      → p.parsed ≡ some r
      → feed values parse p input ≡ read_body values parse p r input
  unfolding feed
  feed-body p input r pending e = simp (pending, e)

  done-IsAfter :
      (total input : Bytes) (p : HttpRequestParser) (r : ParsedRequest)
      → p.complete ≡ true
      → r.header_len ≤ length total
      → IsAfterHead (some r) total p
      → IsAfterHead (some r) (total ++ input) p
  done-IsAfter total input p r done within (parsed, complete, counted) = (
    parsed,
    done
        ∙ sym (
            ap (is_complete_at_head values parse r) (drop-before r.header_len total input within)
            ∙ is_complete_at_head-append values parse r (drop r.header_len total) input
                (sym complete ∙ done)),
    λ pending. absurd (cc (done, pending)),
  )

  read_body-chunked :
      (p : HttpRequestParser) (r : ParsedRequest) (input : Bytes)
      → r.is_chunked ≡ true
      → read_body values parse p r input ≡ record p {
        buffer = p.buffer ++ input;
        complete = check_chunked_complete (drop r.header_len (p.buffer ++ input));
      }
  unfolding read_body
  read_body-chunked p r input chunked = simp chunked

  read_body-plain :
      (p : HttpRequestParser) (r : ParsedRequest) (input : Bytes)
      → r.is_chunked ≡ false
      → read_body values parse p r input ≡ record p {
        body_received = p.body_received + length input;
        complete =
            reached values parse r.content_length (p.body_received + length input) p.complete;
      }
  unfolding read_body
  read_body-plain p r input plain = simp plain

  chunked-IsAfter :
      (total input : Bytes) (p : HttpRequestParser) (r : ParsedRequest)
      → p.complete ≡ false
      → r.is_chunked ≡ true
      → r.content_length ≡ none
      → IsAfterHead (some r) total p
      → IsAfterHead (some r) (total ++ input) (read_body values parse p r input)
  chunked-IsAfter total input p r pending chunked e (parsed, complete, counted) =
      let same : p.buffer ≡ total = (counted pending).0 chunked in
      subst (IsAfterHead (some r) (total ++ input)) (sym (read_body-chunked p r input chunked)) (
        parsed,
        ap (λ b. check_chunked_complete (drop r.header_len (b ++ input))) same
            ∙ sym (
                is_complete_at_head-chunked values parse r (drop r.header_len (total ++ input)) e
                  chunked),
        λ _. ((λ _. ap (◌++ input) same), λ plain. absurd (cc (chunked, plain))),
      )

  plain-IsAfter :
      (total input : Bytes) (p : HttpRequestParser) (r : ParsedRequest)
      → p.complete ≡ false
      → r.is_chunked ≡ false
      → r.header_len ≤ length total
      → IsAfterHead (some r) total p
      → IsAfterHead (some r) (total ++ input) (read_body values parse p r input)
  plain-IsAfter total input p r pending plain within (parsed, complete, counted) =
      let count : p.body_received ≡ length total - r.header_len = (counted pending).1 plain in
      let received : p.body_received + length input ≡ length (total ++ input) - r.header_len =
        omega (arith, count, within, length-append total input) in
      subst (IsAfterHead (some r) (total ++ input)) (sym (read_body-plain p r input plain)) (
        parsed,
        reached-is_complete_at_head values parse p r (drop r.header_len total)
            (drop r.header_len (total ++ input)) (p.body_received + length input) plain pending
            complete (received ∙ sym (length-drop r.header_len (total ++ input))),
        λ _. ((λ chunked. absurd (cc (chunked, plain))), λ _. received),
      )

  feed-IsAfter :
      (total input : Bytes) (p : HttpRequestParser)
      → IsStable values parse
      → IsUnambiguous values parse (total ++ input)
      → IsAfter total p
      → IsAfter (total ++ input) (feed values parse p input)
  feed-IsAfter total input p stable single after =
      elim (Option-cases (try_parse_headers values parse total)) [
        | inl e ↦
            let (parsed, complete, counted) = subst (λ t. IsAfterHead t total p) e after in
            let f = feed-head p input complete parsed in
            let b : p.buffer ++ input ≡ total ++ input = ap (◌++ input) (counted complete) in
            subst (IsAfter (total ++ input))
              (sym (f ∙ ap (λ t. with_head values parse t (try_parse_headers values parse t)) b))
              (with_head-IsAfter (total ++ input))
        | inr (r, e) ↦
            let before = subst (λ t. IsAfterHead t total p) e after in
            let (later, within) = try_parse_headers-append values parse stable total input r e in
            subst (λ t. IsAfterHead t (total ++ input) (feed values parse p input)) (sym later)
              (elim (Bool-cases p.complete) [
                | inl done ↦
                    subst (IsAfterHead (some r) (total ++ input)) (sym (feed-done p input done))
                      (done-IsAfter total input p r done within before)
                | inr pending ↦
                    subst (IsAfterHead (some r) (total ++ input))
                      (sym (feed-body p input r pending before.0))
                      (elim (Bool-cases r.is_chunked) [
                        | inl chunked ↦
                            chunked-IsAfter total input p r pending chunked (single r later chunked)
                              before
                        | inr plain ↦ plain-IsAfter total input p r pending plain within before
                      ])
              ])
      ]

  feed_all-IsAfter :
      (total : Bytes) (pieces : List Bytes) (p : HttpRequestParser)
      → IsStable values parse
      → IsUnambiguous values parse (total ++ concat pieces)
      → IsAfter total p
      → IsAfter (total ++ concat pieces) (feed_all values parse p pieces)
  unfolding feed_all concat
  feed_all-IsAfter total [] p stable single after = rw (append-nil total) after
  feed_all-IsAfter total (input ∷ pieces) p stable single after =
      let e : (total ++ input) ++ concat pieces ≡ total ++ (input ++ concat pieces) =
        append_assoc total input (concat pieces) in
      let u = subst (IsUnambiguous values parse) (sym e) single in
      subst (λ t. IsAfter t (feed_all values parse (feed values parse p input) pieces)) e
        (feed_all-IsAfter (total ++ input) pieces (feed values parse p input) stable u (
          feed-IsAfter total input p stable
            (IsUnambiguous-prefix values parse stable (total ++ input) (concat pieces) u) after))

  -- A request whose head does not announce both chunks and a length is complete, and has the head it has,
  -- however it was cut into pieces, if httparse reads heads from their beginning: what it finds in some bytes,
  -- it finds in them with more behind them, and it consumes no more bytes than there are.
  pub feed_all-concat :
      IsStable values parse
      → (input : Bytes) (pieces : List Bytes) → IsUnambiguous values parse (input ++ concat pieces)
      → ((feed_all values parse new (input ∷ pieces)).complete
          ≡ (feed values parse new (input ++ concat pieces)).complete)
        × ((feed_all values parse new (input ∷ pieces)).parsed
            ≡ (feed values parse new (input ++ concat pieces)).parsed)
  unfolding feed_all feed new
  feed_all-concat stable input pieces single =
      let start =
        feed_all-IsAfter input pieces (feed values parse new input) stable single
          (with_head-IsAfter input) in
      let whole = with_head-IsAfter (input ++ concat pieces) in
      (start.1 ∙ sym whole.1, start.0 ∙ sym whole.0)
