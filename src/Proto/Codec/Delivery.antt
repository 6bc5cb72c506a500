-- ===== src/Proto/Codec/Delivery.antt =====
-- What the receiver of a connection gets: all messages, in order, however the bytes are cut into pieces.
use localup.Base.{
  suc, ◌≤◌, ◌≡◌, sym, subst, inl, inr, none, some, List, [], ◌∷◌, ◌++◌, append_assoc, arith, leb,
  leb→le, Bool-cases, length, length-append, take-append, drop-append, nat_eq, list_eq, Bytes,
  Result, ok, err, Result-cases,
}
use localup.Base.Words.{put_u32, get_u32, get-put_u32}
use localup.Proto.Codec.{CodecError, max_message_size, encode, decode, decode_all}
use localup.Proto.Codec.Framing.{IsNext, IsNext-append}
use localup.Proto.Codec.Chunks.{
  Decodes, waits, reads, Outcome, Decodes-loop, decode_loop-ends, loop-Decodes,
}

module _ {Message E : Type 0} (deserialize : Bytes → Result E Message) where
  -- Decoding a buffer returns: the loop ends, with the messages or an error.
  pub decode_all-returns :
      (buf : Bytes) → (outcome : Outcome deserialize) × (decode_all deserialize buf ≡ some outcome)
  unfolding decode_all
  decode_all-returns buf = decode_loop-ends deserialize (suc (length buf)) buf [] (omega arith)

  Decodes-append :
      (buf rest more rest' : Bytes) (messages messages' : List Message)
      → Decodes deserialize buf messages rest
      → Decodes deserialize (rest ++ more) messages' rest'
      → Decodes deserialize (buf ++ more) (messages ++ messages') rest'
  Decodes-append buf _ more rest' _ messages' (waits e) d' = d'
  Decodes-append buf rest more rest' _ messages'
        (reads {rest = r} {msg = msg} {messages = messages} next d) d' =
      reads (IsNext-append deserialize buf r more msg next)
        (Decodes-append r rest more rest' messages messages' d d')

  Decodes-all :
      (buf rest : Bytes) (messages : List Message)
      → Decodes deserialize buf messages rest
      → decode_all deserialize buf ≡ some (rest, ok messages)
  unfolding decode_all
  Decodes-all buf rest messages d =
      Decodes-loop deserialize (suc (length buf)) buf rest [] messages d (omega arith)

  all-Decodes :
      (buf rest : Bytes) (messages : List Message)
      → decode_all deserialize buf ≡ some (rest, ok messages)
      → Decodes deserialize buf messages rest
  unfolding decode_all
  all-Decodes buf rest messages h =
      let (messages', same, d) =
        loop-Decodes deserialize (suc (length buf)) buf rest [] messages h in
      subst (λ ms. Decodes deserialize buf ms rest) (sym same) d

  -- Bytes that arrive in two pieces give the messages that they give in one: those of the first piece, and
  -- then those of what it left and the second piece.
  pub decode_all-append :
      (buf rest more rest' : Bytes) (messages messages' : List Message)
      → decode_all deserialize buf ≡ some (rest, ok messages)
      → decode_all deserialize (rest ++ more) ≡ some (rest', ok messages')
      → decode_all deserialize (buf ++ more) ≡ some (rest', ok (messages ++ messages'))
  decode_all-append buf rest more rest' messages messages' h h' =
      Decodes-all (buf ++ more) rest' (messages ++ messages') (
        Decodes-append buf rest more rest' messages messages' (all-Decodes buf rest messages h)
          (all-Decodes (rest ++ more) rest' messages' h'))

module _ {Message E : Type 0} (serialize : Message → Result E Bytes)
    (deserialize : Bytes → Result E Message)
    (round_trip : (msg : Message) (payload : Bytes)
      → serialize msg ≡ ok payload
      → deserialize payload ≡ ok msg) where
  framed-IsNext :
      (msg : Message) (payload rest : Bytes)
      → length payload ≤ max_message_size
      → deserialize payload ≡ ok msg
      → IsNext deserialize ((put_u32 (length payload) ++ payload) ++ rest) msg rest
  framed-IsNext msg payload rest small found =
      let size : get_u32 (put_u32 (length payload)) ≡ length payload =
        get-put_u32 (length payload) [] (omega arith) in
      let len = length-append payload rest in
      (
        omega arith,
        omega (arith, size),
        omega (arith, size, len),
        rw (size, drop-append payload rest),
        rw (size, take-append payload rest) found,
      )

  encode-IsNext :
      (msg : Message) (bytes rest : Bytes)
      → encode serialize msg ≡ ok bytes
      → IsNext deserialize (bytes ++ rest) msg rest
  unfolding encode
  encode-IsNext msg bytes rest h = elim (Result-cases (serialize msg)) [
    | inr (e, bad) ↦ absurd (no_bytes (rw bad at h))
    | inl (payload, done) ↦
        let h₁ = rw done at h in
        elim (Bool-cases (leb (length payload) max_message_size)) [
          | inr big ↦ absurd (no_bytes (rw big at h₁))
          | inl small ↦
              subst (λ b. IsNext deserialize (b ++ rest) msg rest) (framed (rw small at h₁))
                (framed-IsNext msg payload rest (leb→le (length payload) max_message_size small)
                  (round_trip msg payload done))
        ]
  ]
    where
      no_bytes : {e : CodecError E} → ◌≡◌ {A = Result (CodecError E) Bytes} (err e) (ok bytes) → ⊥
      no_bytes e = cc

      framed : {b : Bytes} → ◌≡◌ {A = Result (CodecError E) Bytes} (ok b) (ok bytes) → b ≡ bytes
      framed e = cc

  -- The bytes that are sent for a list of messages.
  pub data Sent : List Message → Bytes → Type 0 where
    sent_none : Sent [] []
    sent :
        {msg : Message} {messages : List Message} {bytes more : Bytes}
        → encode serialize msg ≡ ok bytes
        → Sent messages more
        → Sent (msg ∷ messages) (bytes ++ more)

  Sent-Decodes :
      (messages : List Message) (bytes tail : Bytes)
      → Sent messages bytes
      → decode deserialize tail ≡ (tail, ok none)
      → Decodes deserialize (bytes ++ tail) messages tail
  Sent-Decodes _ _ tail sent_none h = waits h
  Sent-Decodes _ _ tail (sent {msg = msg} {messages = messages} {bytes = bytes} {more = more} e s)
        h =
      subst (λ b. Decodes deserialize b (msg ∷ messages) tail) (sym (append_assoc bytes more tail))
        (reads (encode-IsNext msg bytes (more ++ tail) e) (Sent-Decodes messages more tail s h))

  -- All messages sent are received, in order, and bytes behind them that are no whole message stay in the
  -- buffer, where `bincode` reads what it has written.
  pub decode_all-Sent :
      (messages : List Message) (bytes tail : Bytes)
      → Sent messages bytes
      → decode deserialize tail ≡ (tail, ok none)
      → decode_all deserialize (bytes ++ tail) ≡ some (tail, ok messages)
  decode_all-Sent messages bytes tail s h =
      Decodes-all deserialize (bytes ++ tail) tail messages (Sent-Decodes messages bytes tail s h)
