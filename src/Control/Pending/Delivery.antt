-- ===== src/Control/Pending/Delivery.antt =====
-- Responses, and the requests that wait for them.
use localup.Base.{
  ℕ, ◌≡◌, refl, ap, ◌∙◌, inl, inr, true, false, some, List, [], ◌∷◌, Bool-cases, Option-cases, All,
  ◌==◌, ==_refl, nat_eq, list_eq, lookup, lookup-remove, lookup-insert, lookup-insert_self,
}
use localup.Control.Pending.{
  PendingRequests, register, is_dropped, send, without, respond, cancel, drop_receiver,
}

pub data Call (M : Type 0) : Type 0 where
  registers cancels drops : ℕ → Call M
  responds : ℕ → M → Call M

-- The call is about another stream, and not about the channel.
abbrev pub IsApart : {M : Type 0} → ℕ → ℕ → Call M → Type 0
IsApart stream_id channel (registers s) = (s == stream_id) ≡ false
IsApart stream_id channel (cancels s) = (s == stream_id) ≡ false
IsApart stream_id channel (drops c) = (c == channel) ≡ false
IsApart stream_id channel (responds s m) = (s == stream_id) ≡ false

module _ {M : Type 0} where
  pub step : PendingRequests M → Call M → PendingRequests M
  step p (registers s) = (register p s).0
  step p (cancels s) = cancel p s
  step p (drops c) = drop_receiver p c
  step p (responds s m) = (respond p s m).0

  pub run : PendingRequests M → List (Call M) → PendingRequests M
  unfolding step
  run p [] = p
  run p (c ∷ calls) = run (step p c) calls

  -- The channel waits for the stream, and its receiver is there.
  abbrev pub IsWaiting : ℕ → ℕ → PendingRequests M → Type 0
  IsWaiting stream_id channel p =
      (lookup stream_id p.requests ≡ some channel) × (is_dropped channel p.dropped ≡ false)

  send_lem :
      (p : PendingRequests M) (c : ℕ) (m : M)
      → ((send p c m).0.requests ≡ p.requests) × ((send p c m).0.dropped ≡ p.dropped)
  send_lem p c m = elim (Bool-cases (is_dropped c p.dropped)) [
    | inl e ↦ rw (e, send) (refl, refl)
    | inr e ↦ rw (e, send) (refl, refl)
  ]

  respond_lem :
      (p : PendingRequests M) (s stream_id : ℕ) (m : M)
      → (s == stream_id) ≡ false
      → (lookup stream_id (respond p s m).0.requests ≡ lookup stream_id p.requests)
        × ((respond p s m).0.dropped ≡ p.dropped)
  unfolding respond
  respond_lem p s stream_id m other = elim (Option-cases (lookup s p.requests)) [
    | inl e ↦ rw (e, respond) (refl, refl)
    | inr (c, e) ↦
        let (kept, same) = send_lem (without p s) c m in
        rw (e, respond)
          (
            ap (lookup stream_id) kept ∙ (lookup-remove s stream_id p.requests ∙ rw other refl),
            same,
          )
  ]

  step-IsWaiting :
      (stream_id channel : ℕ) (p : PendingRequests M) (c : Call M)
      → IsApart stream_id channel c
      → IsWaiting stream_id channel p
      → IsWaiting stream_id channel (step p c)
  unfolding step register cancel drop_receiver
  step-IsWaiting stream_id channel p (registers s) apart (w, d) =
      (lookup-insert s stream_id p.next_channel p.requests ∙ rw apart w, d)
  step-IsWaiting stream_id channel p (cancels s) apart (w, d) =
      (lookup-remove s stream_id p.requests ∙ rw apart w, d)
  step-IsWaiting stream_id channel p (drops c) apart (w, d) = (w, rw apart d)
  step-IsWaiting stream_id channel p (responds s m) apart (w, d) =
      let (kept, same) = respond_lem p s stream_id m apart in
      (kept ∙ w, ap (is_dropped channel) same ∙ d)

  run-IsWaiting :
      (stream_id channel : ℕ) (p : PendingRequests M) (calls : List (Call M))
      → All (IsApart stream_id channel) calls
      → IsWaiting stream_id channel p
      → IsWaiting stream_id channel (run p calls)
  unfolding run
  run-IsWaiting stream_id channel p [] apart w = w
  run-IsWaiting stream_id channel p (c ∷ calls) apart w =
      run-IsWaiting stream_id channel (step p c) calls apart.1
        (step-IsWaiting stream_id channel p c apart.0 w)

  registered :
      (p : PendingRequests M) (stream_id : ℕ)
      → is_dropped p.next_channel p.dropped ≡ false
      → IsWaiting stream_id p.next_channel (register p stream_id).0
  unfolding register
  registered p stream_id fresh = (lookup-insert_self stream_id p.next_channel p.requests, fresh)

  -- The first response to a stream is delivered to the channel that was registered for it, whatever calls
  -- there were in between for other streams and channels, and a second response to the stream is not
  -- delivered: as long as the receiver of the channel was not dropped before.
  pub respond-run :
      (p : PendingRequests M) (stream_id : ℕ) (calls : List (Call M)) (response another : M)
      → is_dropped p.next_channel p.dropped ≡ false
      → All (IsApart stream_id p.next_channel) calls
      → ((respond (run (register p stream_id).0 calls) stream_id response).1 ≡ true)
        × (lookup p.next_channel
              (respond (run (register p stream_id).0 calls) stream_id response).0.delivered
            ≡ some response)
        × ((respond
              (respond (run (register p stream_id).0 calls) stream_id response).0
              stream_id
              another).1
            ≡ false)
  unfolding respond
  respond-run p stream_id calls response another fresh apart =
      let q = run (register p stream_id).0 calls in
      let (waiting, there_still) =
        run-IsWaiting stream_id p.next_channel (register p stream_id).0 calls apart
          (registered p stream_id fresh) in
      rw (waiting, respond)
        (rw there_still (
          refl,
          lookup-insert_self p.next_channel response q.delivered,
          rw (lookup-remove stream_id stream_id q.requests, ==_refl stream_id) refl,
        ))
