-- ===== src/Proto/Codec/Chunks.antt =====
-- Messages that arrive in pieces.
use localup.Base.{
  ℕ, zero, suc, ◌<◌, ◌≡◌, refl, sym, ap, ◌∙◌, subst, ◌⊎◌, inl, inr, Option, none, some, List, [],
  ◌∷◌, ◌++◌, append-nil, append_assoc, arith, length, drop, length-drop, nat_eq, list_eq, Bytes,
  Result, ok, err,
}
use localup.Base.Words.{get_u32}
use localup.Proto.Codec.{CodecError, decode, decode_loop}
use localup.Proto.Codec.Framing.{Answer, IsNext, IsNext-decode, decode-IsNext, decode-none}

module _ {Message E : Type 0} (deserialize : Bytes → Result E Message) where
  -- The messages at the start of a buffer, and the rest, which holds no whole message.
  pub data Decodes : Bytes → List Message → Bytes → Type 0 where
    waits : {buf : Bytes} → decode deserialize buf ≡ (buf, ok none) → Decodes buf [] buf
    reads :
        {buf rest rest' : Bytes} {msg : Message} {messages : List Message}
        → IsNext deserialize buf msg rest
        → Decodes rest messages rest'
        → Decodes buf (msg ∷ messages) rest'

  abbrev pub Outcome : Type 0
  Outcome = Bytes × Result (CodecError E) (List Message)

  IsNext-shorter :
      (buf rest : Bytes) (msg : Message)
      → IsNext deserialize buf msg rest
      → length rest < length buf
  IsNext-shorter buf rest msg (four, small, whole, after, found) =
      omega (arith, ap length after, length-drop (get_u32 buf) (drop 4 buf), length-drop 4 buf)

  pub Decodes-loop :
      (fuel : ℕ) (buf rest : Bytes) (before messages : List Message)
      → Decodes buf messages rest
      → length buf < fuel
      → decode_loop deserialize fuel buf before ≡ some (rest, ok (before ++ messages))
  unfolding decode_loop
  Decodes-loop zero buf rest before messages d h = absurd (omega arith)
  Decodes-loop (suc fuel) buf rest before _ (waits e) h = rw e (rw (append-nil before))
  Decodes-loop (suc fuel) buf rest' before _
        (reads {rest = rest} {msg = msg} {messages = messages} next d) h =
      rw (IsNext-decode deserialize buf rest msg next) (
        Decodes-loop fuel rest rest' (before ++ msg ∷ []) messages d
          (omega (arith, IsNext-shorter buf rest msg next))
        ∙ rw (append_assoc before (msg ∷ []) messages))

  -- What a call of `decode` can be.
  answer-cases :
      (answer : Answer deserialize)
      → ((b : Bytes) × (e : CodecError E) × (answer ≡ (b, err e)))
        ⊎ ((b : Bytes) × (answer ≡ (b, ok none)))
        ⊎ ((b : Bytes) × (msg : Message) × (answer ≡ (b, ok (some msg))))
  answer-cases (b, err e) = inl (b, e, refl)
  answer-cases (b, ok none) = inr (inl (b, refl))
  answer-cases (b, ok (some msg)) = inr (inr (b, msg, refl))

  -- Decoding a buffer ends, with messages or an error: the length of the buffer bounds the rounds.
  pub decode_loop-ends :
      (fuel : ℕ) (buf : Bytes) (before : List Message)
      → length buf < fuel
      → (outcome : Outcome) × (decode_loop deserialize fuel buf before ≡ some outcome)
  unfolding decode_loop
  decode_loop-ends zero buf before h = absurd (omega arith)
  decode_loop-ends (suc fuel) buf before h = elim (answer-cases (decode deserialize buf)) [
    | inl (b, e, a) ↦ ((b, err e), rw a)
    | inr (inl (b, a)) ↦ ((b, ok before), rw a)
    | inr (inr (b, msg, a)) ↦
        let shorter = IsNext-shorter buf b msg (decode-IsNext deserialize buf b msg a) in
        let (outcome, e) = decode_loop-ends fuel b (before ++ msg ∷ []) (omega (arith, shorter)) in
        (outcome, rw a e)
  ]

  pub loop-Decodes :
      (fuel : ℕ) (buf rest : Bytes) (before all_messages : List Message)
      → decode_loop deserialize fuel buf before ≡ some (rest, ok all_messages)
      → (messages : List Message) × (all_messages ≡ before ++ messages) × Decodes buf messages rest
  unfolding decode_loop
  loop-Decodes zero buf rest before all_messages h = absurd (bad h)
    where
      bad : ◌≡◌ {A = Option Outcome} none (some (rest, ok all_messages)) → ⊥
      bad e = cc
  loop-Decodes (suc fuel) buf rest before all_messages h =
      elim (answer-cases (decode deserialize buf)) [
        | inl (b, e, a) ↦ absurd (bad (rw a at h))
        | inr (inl (b, a)) ↦
            let (same, same') = ended (rw a at h) in
            let stays : b ≡ buf = decode-none deserialize buf b a in
            (
              [],
              sym same ∙ sym (append-nil before),
              subst (λ r. Decodes buf [] r) (sym stays ∙ same') (waits (a ∙ rw stays)),
            )
        | inr (inr (b, msg, a)) ↦
            let (messages, same, d) =
              loop-Decodes fuel b rest (before ++ msg ∷ []) all_messages (rw a at h) in
            (
              msg ∷ messages,
              same ∙ append_assoc before (msg ∷ []) messages,
              reads (decode-IsNext deserialize buf b msg a) d,
            )
      ]
    where
      bad :
          {b : Bytes} {e : CodecError E}
          → ◌≡◌ {A = Option Outcome} (some (b, err e)) (some (rest, ok all_messages))
          → ⊥
      bad e = cc

      ended :
          {b : Bytes}
          → ◌≡◌ {A = Option Outcome} (some (b, ok before)) (some (rest, ok all_messages))
          → (before ≡ all_messages) × (b ≡ rest)
      ended e = (cc, cc)
