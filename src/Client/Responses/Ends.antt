-- ===== src/Client/Responses/Ends.antt =====
-- The end of a response without an announced length.
use localup.Base.{
  ℕ, zero, suc, ◌+◌, ◌-◌, ◌≤◌, ◌<◌, ◌≡◌, refl, sym, ap, ◌∙◌, subst, ◌↔◌, inl, inr, true, false,
  Option, none, some, List, [], ◌∷◌, arith, leb, eqb, lt→ltb, leb→le, le→leb, eqb_iff, Option-cases,
  length, drop, length-drop, Bytes,
}
use localup.Client.Heads.{Values}
use localup.Client.Responses.{
  ResponseHead, ParsedResponse, HttpResponseParser, new, try_parse_headers, is_unknown,
  is_complete_at_head, with_head, read_body, feed, is_complete, idle_timeout_ms, body_data,
}

drop_all : (n : ℕ) (bytes : Bytes) → length bytes ≤ n → drop n bytes ≡ []
drop_all zero [] h = refl
drop_all (suc n) [] h = refl
drop_all zero (b ∷ bytes) h = absurd (omega arith)
drop_all (suc n) (b ∷ bytes) h = drop_all n bytes (omega arith)

module _ (values : Values) (parse : Bytes → Option ResponseHead) where
  -- Pieces that arrive at the given times.
  unfoldable pub feed_all : HttpResponseParser → List (ℕ × Bytes) → HttpResponseParser
  feed_all p [] = p
  feed_all p ((now, input) ∷ pieces) = feed_all (feed values parse now p input) pieces

  feed-done :
      (now : ℕ) (p : HttpResponseParser) (input : Bytes)
      → p.complete ≡ true
      → feed values parse now p input ≡ p
  unfolding feed
  feed-done now p input done = rw done refl

  feed_all-done :
      (p : HttpResponseParser) (pieces : List (ℕ × Bytes))
      → p.complete ≡ true
      → feed_all p pieces ≡ p
  unfolding feed_all
  feed_all-done p [] done = refl
  feed_all-done p ((now, input) ∷ pieces) done =
      ap (λ q. feed_all q pieces) (feed-done now p input done) ∙ feed_all-done p pieces done

  feed-new :
      (now : ℕ) (bytes : Bytes) (r : ParsedResponse)
      → try_parse_headers values parse bytes ≡ some r
      → feed values parse now new bytes
        ≡ with_head values parse (record new { last_data_time = some now }) bytes (some r)
  unfolding feed new
  feed-new now bytes r e =
      ap (with_head values parse (record new { last_data_time = some now }) bytes) e

  is_complete_at_head-unknown :
      (r : ParsedResponse) (body : Bytes)
      → is_unknown values parse r ≡ true
      → is_complete_at_head values parse r body ≡ eqb (length body) 0
  unfolding is_complete_at_head
  is_complete_at_head-unknown r body unknown = elim (Option-cases r.content_length) [
    | inl e ↦ ground (arith, e, unknown)
    | inr (n, e) ↦ ground (arith, e, unknown)
  ]

  -- A response without an announced length whose head arrives alone is complete with an empty body, and
  -- what arrives later is ignored.
  pub feed_all-head_alone :
      (now : ℕ) (bytes : Bytes) (r : ParsedResponse) (later : List (ℕ × Bytes)) (time : ℕ)
      → try_parse_headers values parse bytes ≡ some r
      → is_unknown values parse r ≡ true
      → r.header_len ≡ length bytes
      → (is_complete time (feed_all (feed values parse now new bytes) later) ≡ true)
        × (body_data (feed_all (feed values parse now new bytes) later) ≡ some [])
  unfolding is_complete body_data
  feed_all-head_alone now bytes r later time head unknown alone =
      let whole = feed-new now bytes r head in
      let empty = drop_all r.header_len bytes (omega arith) in
      let done : (feed values parse now new bytes).complete ≡ true =
        ap HttpResponseParser.complete whole
        ∙ is_complete_at_head-unknown r (drop r.header_len bytes) unknown
        ∙ ap (λ b. eqb (length b) 0) empty in
      let e = feed_all-done (feed values parse now new bytes) later done in
      (
        ground (arith, done, ap HttpResponseParser.complete e),
        ap body_data (e ∙ whole) ∙ ap some empty,
      )

  -- A response without an announced length.
  abbrev IsOpen : Option ParsedResponse → HttpResponseParser → Type 0
  IsOpen t p = (p.parsed ≡ t) × (p.complete ≡ false) × (1 ≤ p.body_received)

  is_unknown-parts :
      (r : ParsedResponse)
      → is_unknown values parse r ≡ true
      → (r.content_length ≡ none) × (r.is_chunked ≡ false)
  is_unknown-parts r unknown = elim (Option-cases r.content_length) [
    | inl e ↦ (e, ground (arith, unknown))
    | inr (n, e) ↦ absurd (ground (arith, e, unknown))
  ]

  feed-open :
      (now : ℕ) (p : HttpResponseParser) (input : Bytes) (r : ParsedResponse)
      → is_unknown values parse r ≡ true
      → IsOpen (some r) p
      → feed values parse now p input
        ≡ record p { last_data_time = some now; body_received = p.body_received + length input }
  unfolding feed read_body
  feed-open now p input r unknown (parsed, pending, _) =
      let (unannounced, plain) = is_unknown-parts r unknown in
      simp (pending, parsed, plain, unannounced)

  unfoldable pub last_time : ℕ → List (ℕ × Bytes) → ℕ
  last_time now [] = now
  last_time now ((later, _) ∷ pieces) = last_time later pieces

  feed_all-IsOpen :
      (now : ℕ) (p : HttpResponseParser) (r : ParsedResponse) (later : List (ℕ × Bytes))
      → is_unknown values parse r ≡ true
      → IsOpen (some r) p
      → p.last_data_time ≡ some now
      → IsOpen (some r) (feed_all p later)
        × ((feed_all p later).last_data_time ≡ some (last_time now later))
  unfolding feed_all last_time
  feed_all-IsOpen now p r [] unknown open_before last = (open_before, last)
  feed_all-IsOpen now p r ((time, input) ∷ later) unknown (parsed, pending, some_body) last =
      let e = feed-open time p input r unknown (parsed, pending, some_body) in
      feed_all-IsOpen time (feed values parse time p input) r later unknown
        (
          ap HttpResponseParser.parsed e ∙ parsed,
          ap HttpResponseParser.complete e ∙ pending,
          subst (1 ≤◌) (sym (ap HttpResponseParser.body_received e)) (omega arith),
        )
        (ap HttpResponseParser.last_data_time e)

  idle_iff :
      (time last : ℕ) (p : HttpResponseParser) (r : ParsedResponse)
      → p.parsed ≡ some r
      → p.complete ≡ false
      → 1 ≤ p.body_received
      → p.last_data_time ≡ some last
      → (is_complete time p ≡ true) ↔ (last + idle_timeout_ms ≤ time)
  unfolding is_complete
  idle_iff time last p r parsed pending some_body at =
      let e : is_complete time p ≡ leb idle_timeout_ms (time - last) =
        ground (arith, parsed, pending, at, lt→ltb 0 p.body_received some_body) in
      (
        (λ h. ground (arith, leb→le idle_timeout_ms (time - last) (sym e ∙ h))),
        (λ h. e ∙ le→leb idle_timeout_ms (time - last) (omega arith)),
      )

  -- A response without an announced length whose body begins with the head is complete when nothing has
  -- arrived for 100 milliseconds.
  pub feed_all-with_body_iff :
      (now : ℕ) (bytes : Bytes) (r : ParsedResponse) (later : List (ℕ × Bytes)) (time : ℕ)
      → try_parse_headers values parse bytes ≡ some r
      → is_unknown values parse r ≡ true
      → r.header_len < length bytes
      → (is_complete time (feed_all (feed values parse now new bytes) later) ≡ true)
        ↔ (last_time now later + idle_timeout_ms ≤ time)
  unfolding is_complete
  feed_all-with_body_iff now bytes r later time head unknown more =
      let whole = feed-new now bytes r head in
      let pending : (feed values parse now new bytes).complete ≡ false =
        ap HttpResponseParser.complete whole
        ∙ is_complete_at_head-unknown r (drop r.header_len bytes) unknown
        ∙ ground
            (arith, length-drop r.header_len bytes, eqb_iff (length (drop r.header_len bytes)) 0) in
      let received : 1 ≤ (feed values parse now new bytes).body_received =
        subst (1 ≤◌) (sym (ap HttpResponseParser.body_received whole)) (omega arith) in
      let ((parsed, open_after, some_body), last) =
        feed_all-IsOpen now (feed values parse now new bytes) r later unknown
          (ap HttpResponseParser.parsed whole, pending, received)
          (ap HttpResponseParser.last_data_time whole) in
      idle_iff time (last_time now later) (feed_all (feed values parse now new bytes) later) r
        parsed open_after some_body last
