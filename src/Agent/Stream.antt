-- ===== src/Agent/Stream.antt =====
-- One connection through a reverse tunnel: the checks of `handle_reverse_stream` in
-- crates/localup-control/src/handler.rs, and those of `handle_stream` in crates/localup-agent/src/agent.rs,
-- which that sends a request to. The validation of a token with a secret is a parameter.
use localup.Base.{
  Bool, true, ==_refl, ◌>>=◌, ℕ, ◌≡◌, refl, sym, ap, ◌∙◌, ◌↔◌, inl, inr, Option, none, some, ◌==◌,
  ==_iff, nat_eq, list_eq, Text, Result, ok, err, ◌>>◌, ensure, map_err, Result-cases, >>=-eq-ok,
  map_err_ok, ensure_ok,
}
use localup.Control.Admission.{JwtClaims}

-- Why the agent rejects a request
pub data ForwardReject : Type 0 where
  invalid_agent_token : Text → ForwardReject
  agent_token_required : ForwardReject
  address_mismatch : Text → Text → ForwardReject

-- The message `ForwardRequest`
pub record ForwardRequest : Type 0 where
  pub localup_id : Text
  pub stream_id : ℕ
  pub remote_address : Text
  pub agent_token : Option Text

-- The first message of the stream of a client
pub data FirstMessage : Type 0 where
  reverse_connect : Text → ℕ → Text → FirstMessage
  another_message first_closed first_unread : FirstMessage

-- What the stream to the agent delivers in answer to a request: what the agent sent, another message, its
-- end, or an error.
pub data Delivery : Type 0 where
  delivered unexpected response_closed response_failed : Delivery

-- A stream to the agent: whether it could be opened, whether the request could be sent, and the answer.
pub record AgentStream : Type 0 where
  pub opened : Bool
  pub sent : Bool
  pub delivery : Delivery

module _ (validate : Text → Text → Result Text JwtClaims) where
  abbrev pub check_agent_token : Option Text → Option Text → Result ForwardReject (Unit {0})
  check_agent_token none agent_token = ok tt
  check_agent_token (some secret) none = err agent_token_required
  check_agent_token (some secret) (some token) = elim (validate secret token) [
    | ok claims ↦ ok tt
    | err e ↦ err (invalid_agent_token e)
  ]

  -- The address that the agent then connects to.
  unfoldable pub handle_stream : Option Text → Text → ForwardRequest → Result ForwardReject Text
  handle_stream jwt_secret target_address request = do
    check_agent_token jwt_secret request.agent_token
    ensure (request.remote_address == target_address)
        (address_mismatch target_address request.remote_address)
    ok request.remote_address

  -- Why a stream of a reverse tunnel fails in the relay
  pub data ReverseError : Type 0 where
    not_reverse_connect closed_before_connect connect_unread : ReverseError
    localup_id_mismatch remote_address_mismatch : Text → Text → ReverseError
    agent_stream_unopened request_unsent : ReverseError
    rejected_by_agent : ForwardReject → ReverseError
    unexpected_response closed_before_response response_unread : ReverseError

  abbrev pub expect_connect : FirstMessage → Result ReverseError (Text × ℕ × Text)
  expect_connect (reverse_connect id stream_id address) = ok (id, stream_id, address)
  expect_connect another_message = err not_reverse_connect
  expect_connect first_closed = err closed_before_connect
  expect_connect first_unread = err connect_unread

  -- What the relay makes of the answer, which comes to it if the stream delivers it.
  abbrev pub answer_of : Delivery → Result ForwardReject Text → Result ReverseError Text
  answer_of delivered answer = map_err rejected_by_agent answer
  answer_of unexpected answer = err unexpected_response
  answer_of response_closed answer = err closed_before_response
  answer_of response_failed answer = err response_unread

  -- The stream of a tunnel that was accepted for an address, with its first message, the stream to the
  -- agent, and the agent at the other end, up to the forwarding of data.
  unfoldable pub handle_reverse_stream :
      Option Text
      → Text
      → Text
      → Text
      → Option Text
      → AgentStream
      → FirstMessage
      → Result ReverseError Text
  handle_reverse_stream jwt_secret target_address id address agent_token stream first = do
    (msg_id, stream_id, msg_address) ← expect_connect first
    ensure (msg_id == id) (localup_id_mismatch id msg_id)
    ensure (msg_address == address) (remote_address_mismatch address msg_address)
    ensure stream.opened agent_stream_unopened
    ensure stream.sent request_unsent
    answer_of stream.delivery (
        handle_stream jwt_secret target_address (record {
          localup_id = id;
          stream_id = stream_id;
          remote_address = address;
          agent_token = agent_token;
        }))

  -- With a secret, the request has a token that the secret validates.
  abbrev pub IsAuthorized : Option Text → Option Text → Type 0
  IsAuthorized none agent_token = Unit
  IsAuthorized (some secret) agent_token =
      (token : Text) × (claims : JwtClaims) × (agent_token ≡ some token)
      × (validate secret token ≡ ok claims)

  check_agent_token_iff :
      (secret agent_token : Option Text) (u : Unit {0})
      → (check_agent_token secret agent_token ≡ ok u) ↔ IsAuthorized secret agent_token
  check_agent_token_iff none agent_token u = (λ h. tt, λ a. refl)
  check_agent_token_iff (some secret) none u = (λ h. cc, λ (t, c, e, v). absurd (nothing t e))
    where
      nothing : (t : Text) → ◌≡◌ {A = Option Text} none (some t) → ⊥
      nothing t x = cc
  check_agent_token_iff (some secret) (some token) u = elim (Result-cases (validate secret token)) [
    | inl (claims, e) ↦ (λ h. (token, claims, refl, e), λ a. rw (e, check_agent_token) refl)
    | inr (f, e) ↦ (
      λ h. absurd (refused f (rw (e, check_agent_token) at h)),
      λ (t, c, same, v).
          absurd (no_claims f c (sym e ∙ (ap (validate secret) (same_token t same) ∙ v))),
    )
  ]
    where
      refused :
          (f : Text)
          → ◌≡◌ {A = Result ForwardReject (Unit {0})} (err (invalid_agent_token f)) (ok u)
          → ⊥
      refused f x = cc

      same_token : (t : Text) → ◌≡◌ {A = Option Text} (some token) (some t) → token ≡ t
      same_token t x = cc

      no_claims : (f : Text) (c : JwtClaims) → ◌≡◌ {A = Result Text JwtClaims} (err f) (ok c) → ⊥
      no_claims f c x = cc

  handle_stream_iff :
      (secret : Option Text) (target : Text) (request : ForwardRequest) (address : Text)
      → (handle_stream secret target request ≡ ok address) ↔ (
          IsAuthorized secret request.agent_token
          × (request.remote_address ≡ target)
          × (request.remote_address ≡ address))
  unfolding handle_stream
  handle_stream_iff secret target request address =
      let (to, from) = check_agent_token_iff secret request.agent_token tt in
      (
        λ h.
            let (u, checked, h1) = >>=-eq-ok (check_agent_token secret request.agent_token) _ h in
            let (v, same, h2) =
              >>=-eq-ok
                (ensure (request.remote_address == target)
                  (address_mismatch target request.remote_address))
                _ h1 in
            (to checked, (==_iff request.remote_address target).0 (ensure_ok _ _ same), cc),
        λ (authorized, same, e).
            rw (from authorized) (rw ((==_iff request.remote_address target).1 same) (ap ok e)),
      )

  answer_of_ok :
      (d : Delivery) (answer : Result ForwardReject Text) (address : Text)
      → answer_of d answer ≡ ok address
      → (d ≡ delivered) × (answer ≡ ok address)
  answer_of_ok delivered answer address h = (refl, map_err_ok rejected_by_agent answer address h)
  answer_of_ok unexpected answer address h = cc
  answer_of_ok response_closed answer address h = cc
  answer_of_ok response_failed answer address h = cc

  expect_connect_ok :
      (first : FirstMessage) (id address : Text) (stream_id : ℕ)
      → expect_connect first ≡ ok (id, stream_id, address)
      → first ≡ reverse_connect id stream_id address
  expect_connect_ok (reverse_connect id' stream_id' address') id address stream_id h = cc h
  expect_connect_ok another_message id address stream_id h = cc
  expect_connect_ok first_closed id address stream_id h = cc
  expect_connect_ok first_unread id address stream_id h = cc

  -- A stream of a reverse tunnel leads to an address exactly if its first message names the tunnel and the
  -- address that the tunnel was accepted for, a stream to the agent can be opened and delivers the request
  -- and the answer, the address is the one target of the agent, and the token of the tunnel passes the
  -- agent's validation, when the agent has a secret.
  pub handle_reverse_stream_iff :
      (secret : Option Text) (target id address : Text) (agent_token : Option Text)
      (stream : AgentStream) (first : FirstMessage) (reached : Text)
      → (handle_reverse_stream secret target id address agent_token stream first ≡ ok reached) ↔ (
          (stream_id : ℕ) × (first ≡ reverse_connect id stream_id address)
          × (stream.opened ≡ true)
          × (stream.sent ≡ true)
          × (stream.delivery ≡ delivered)
          × IsAuthorized secret agent_token
          × (address ≡ target)
          × (address ≡ reached))
  unfolding handle_reverse_stream
  handle_reverse_stream_iff secret target id address agent_token stream first reached = (to, from)
    where
      request : ℕ → ForwardRequest
      request stream_id = record {
        localup_id = id;
        stream_id = stream_id;
        remote_address = address;
        agent_token = agent_token;
      }

      to :
          handle_reverse_stream secret target id address agent_token stream first ≡ ok reached
          → (stream_id : ℕ) × (first ≡ reverse_connect id stream_id address)
            × (stream.opened ≡ true)
            × (stream.sent ≡ true)
            × (stream.delivery ≡ delivered)
            × IsAuthorized secret agent_token
            × (address ≡ target)
            × (address ≡ reached)
      to h =
          let ((msg_id, stream_id, msg_address), e0, h0) = >>=-eq-ok (expect_connect first) _ h in
          let (u1, e1, h1) =
            >>=-eq-ok (ensure (msg_id == id) (localup_id_mismatch id msg_id)) _ h0 in
          let (u2, e2, h2) =
            >>=-eq-ok
              (ensure (msg_address == address) (remote_address_mismatch address msg_address)) _
              h1 in
          let (u3, e3, h3) = >>=-eq-ok (ensure stream.opened agent_stream_unopened) _ h2 in
          let (u4, e4, h4) = >>=-eq-ok (ensure stream.sent request_unsent) _ h3 in
          let (arrives, answer) =
            answer_of_ok stream.delivery (handle_stream secret target (request stream_id)) reached
              h4 in
          let (authorized, same_target, reaches) =
            (handle_stream_iff secret target (request stream_id) reached).0 answer in
          (
            stream_id,
            expect_connect_ok first msg_id msg_address stream_id e0
                ∙ (ap (λ i. reverse_connect i stream_id msg_address)
                      ((==_iff msg_id id).0 (ensure_ok _ _ e1))
                    ∙ ap (reverse_connect id stream_id)
                        ((==_iff msg_address address).0 (ensure_ok _ _ e2))),
            ensure_ok _ _ e3,
            ensure_ok _ _ e4,
            arrives,
            authorized,
            same_target,
            reaches,
          )

      from :
          (stream_id : ℕ) × (first ≡ reverse_connect id stream_id address)
            × (stream.opened ≡ true)
            × (stream.sent ≡ true)
            × (stream.delivery ≡ delivered)
            × IsAuthorized secret agent_token
            × (address ≡ target)
            × (address ≡ reached)
          → handle_reverse_stream secret target id address agent_token stream first ≡ ok reached
      from (stream_id, e, opens, sends, arrives, authorized, same_target, reaches) =
          let answer =
            (handle_stream_iff secret target (request stream_id) reached).1
              (authorized, same_target, reaches) in
          rw (e, ==_refl id, ==_refl address, opens, sends, arrives, answer) refl
