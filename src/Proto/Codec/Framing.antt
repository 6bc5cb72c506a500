-- ===== src/Proto/Codec/Framing.antt =====
-- Messages on a byte stream.
use localup.Base.{
  ℕ, zero, suc, ◌+◌, ◌≤◌, ◌≡◌, refl, ap, ◌∙◌, inl, inr, false, Option, none, some, [], ◌∷◌, ◌++◌,
  arith, ltb, Bool-cases, length, take, drop, length-append, length-drop, nat_eq, list_eq, Bytes,
  Result, ok, err, Result-cases,
}
use localup.Base.Words.{get_u32}
use localup.Proto.Codec.{CodecError, max_message_size, decode}

take-append_le : (n : ℕ) (xs ys : Bytes) → n ≤ length xs → take n (xs ++ ys) ≡ take n xs
take-append_le zero xs ys h = refl
take-append_le (suc n) [] ys h = absurd (omega arith)
take-append_le (suc n) (x ∷ xs) ys h = ap (◌∷◌ x) (take-append_le n xs ys (omega arith))

drop-append_le : (n : ℕ) (xs ys : Bytes) → n ≤ length xs → drop n (xs ++ ys) ≡ drop n xs ++ ys
drop-append_le zero xs ys h = refl
drop-append_le (suc n) [] ys h = absurd (omega arith)
drop-append_le (suc n) (x ∷ xs) ys h = drop-append_le n xs ys (omega arith)

get_u32-append : (xs ys : Bytes) → 4 ≤ length xs → get_u32 (xs ++ ys) ≡ get_u32 xs
get_u32-append (a ∷ b ∷ c ∷ d ∷ xs) ys h = refl
get_u32-append (a ∷ b ∷ c ∷ []) ys h = absurd (omega arith)
get_u32-append (a ∷ b ∷ []) ys h = absurd (omega arith)
get_u32-append (a ∷ []) ys h = absurd (omega arith)
get_u32-append [] ys h = absurd (omega arith)

module _ {Message E : Type 0} (deserialize : Bytes → Result E Message) where
  abbrev pub Answer : Type 0
  Answer = Bytes × Result (CodecError E) (Option Message)

  -- A whole message stands at the start of the buffer, and this is what stands behind it.
  abbrev pub IsNext : Bytes → Message → Bytes → Type 0
  IsNext buf msg rest =
      (4 ≤ length buf)
      × (get_u32 buf ≤ max_message_size)
      × (4 + get_u32 buf ≤ length buf)
      × (rest ≡ drop (get_u32 buf) (drop 4 buf))
      × (deserialize (take (get_u32 buf) (drop 4 buf)) ≡ ok msg)

  pub IsNext-decode :
      (buf rest : Bytes) (msg : Message)
      → IsNext buf msg rest
      → decode deserialize buf ≡ (rest, ok (some msg))
  unfolding decode
  IsNext-decode buf rest msg (four, small, whole, after, found) =
      let a : ltb (length buf) 4 ≡ false = ground arith in
      let b : ltb max_message_size (get_u32 buf) ≡ false = ground arith in
      let c : ltb (length buf) (4 + get_u32 buf) ≡ false = ground arith in
      rw (a, b, c, found, after)

  pub decode-IsNext :
      (buf rest : Bytes) (msg : Message)
      → decode deserialize buf ≡ (rest, ok (some msg))
      → IsNext buf msg rest
  unfolding decode
  decode-IsNext buf rest msg h = elim (Bool-cases (ltb (length buf) 4)) [
    | inl a ↦ absurd (bad (rw a at h))
    | inr a ↦
        let h₁ = rw a at h in
        elim (Bool-cases (ltb max_message_size (get_u32 buf))) [
          | inl b ↦ absurd (bad' (rw b at h₁))
          | inr b ↦
              let h₂ = rw b at h₁ in
              elim (Bool-cases (ltb (length buf) (4 + get_u32 buf))) [
                | inl c ↦ absurd (bad (rw c at h₂))
                | inr c ↦
                    let h₃ = rw c at h₂ in
                    elim (Result-cases (deserialize (take (get_u32 buf) (drop 4 buf)))) [
                      | inr (e, d) ↦ absurd (bad' (rw d at h₃))
                      | inl (m, d) ↦
                          let (same, after) = pair (rw d at h₃) in
                          (ground arith, ground arith, ground arith, after, d ∙ ap ok same)
                    ]
              ]
        ]
  ]
    where
      bad : {b r : Bytes} → ◌≡◌ {A = Answer} (b, ok none) (r, ok (some msg)) → ⊥
      bad e = cc

      bad' : {b r : Bytes} {e : CodecError E} → ◌≡◌ {A = Answer} (b, err e) (r, ok (some msg)) → ⊥
      bad' e = cc

      pair :
          {b r : Bytes} {m : Message}
          → ◌≡◌ {A = Answer} (b, ok (some m)) (r, ok (some msg))
          → (m ≡ msg) × (r ≡ b)
      pair e = (cc, cc)

  pub decode-none : (buf rest : Bytes) → decode deserialize buf ≡ (rest, ok none) → rest ≡ buf
  unfolding decode
  decode-none buf rest h =
      ground (arith, Result-cases (deserialize (take (get_u32 buf) (drop 4 buf))))

  pub IsNext-append :
      (buf rest more : Bytes) (msg : Message)
      → IsNext buf msg rest
      → IsNext (buf ++ more) msg (rest ++ more)
  IsNext-append buf rest more msg (four, small, whole, after, found) =
      let e = get_u32-append buf more four in
      let d = drop-append_le 4 buf more four in
      let len = length-append buf more in
      let left = length-drop 4 buf in
      (
        omega (arith, len),
        omega (arith, e),
        omega (arith, e, len),
        rw (e, d, drop-append_le (get_u32 buf) (drop 4 buf) more (omega (arith, left)), after),
        rw (e, d, take-append_le (get_u32 buf) (drop 4 buf) more (omega (arith, left))) found,
      )
