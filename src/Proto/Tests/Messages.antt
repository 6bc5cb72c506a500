-- ===== src/Proto/Tests/Messages.antt =====
-- The framing with a serializer of one byte.
use localup.Base.{
  ℕ, ◌≡◌, refl, subst, inl, inr, none, some, [], ◌∷◌, ◌++◌, ltb, if◌then◌else◌, Bool-cases, nat_eq,
  list_eq, Bytes, Result, ok, err,
}
use localup.Proto.Codec.{encode, decode, decode_loop, decode_all}
use localup.Proto.Codec.Delivery.{sent_none, sent, decode_all-append, decode_all-Sent}

-- A serializer of numbers below 256, as one byte.
abbrev serialize : ℕ → Result (Unit {0}) Bytes
serialize n = if ltb n 256 then ok (n ∷ []) else err tt

abbrev deserialize : Bytes → Result (Unit {0}) ℕ
deserialize (n ∷ []) = ok n
deserialize _ = err tt

round_trip : (n : ℕ) (payload : Bytes) → serialize n ≡ ok payload → deserialize payload ≡ ok n
round_trip n payload h = elim (Bool-cases (ltb n 256)) [
  | inl e ↦ subst (λ p. deserialize p ≡ ok n) (same (rw e at h)) refl
  | inr e ↦ absurd (failed (rw e at h))
]
  where
    same : ◌≡◌ {A = Result (Unit {0}) Bytes} (ok (n ∷ [])) (ok payload) → n ∷ [] ≡ payload
    same e = cc

    failed : ◌≡◌ {A = Result (Unit {0}) Bytes} (err tt) (ok payload) → ⊥
    failed e = cc

abbrev two_messages : Bytes
two_messages = 0 ∷ 0 ∷ 0 ∷ 1 ∷ 7 ∷ 0 ∷ 0 ∷ 0 ∷ 1 ∷ 9 ∷ []

seven : encode serialize 7 ≡ ok (0 ∷ 0 ∷ 0 ∷ 1 ∷ 7 ∷ [])
unfolding encode
seven = refl

nine : encode serialize 9 ≡ ok (0 ∷ 0 ∷ 0 ∷ 1 ∷ 9 ∷ [])
unfolding encode
nine = refl

tail_waits : decode deserialize (0 ∷ 0 ∷ []) ≡ (0 ∷ 0 ∷ [], ok none)
unfolding decode
tail_waits = refl

first_part :
    decode_all deserialize (0 ∷ 0 ∷ 0 ∷ 1 ∷ 7 ∷ 0 ∷ 0 ∷ []) ≡ some (0 ∷ 0 ∷ [], ok (7 ∷ []))
unfolding decode_all decode_loop decode
first_part = refl

second_part : decode_all deserialize (0 ∷ 0 ∷ 0 ∷ 1 ∷ 9 ∷ []) ≡ some ([], ok (9 ∷ []))
unfolding decode_all decode_loop decode
second_part = refl

decode_all-append_example : decode_all deserialize two_messages ≡ some ([], ok (7 ∷ 9 ∷ []))
decode_all-append_example =
    decode_all-append deserialize (0 ∷ 0 ∷ 0 ∷ 1 ∷ 7 ∷ 0 ∷ 0 ∷ []) (0 ∷ 0 ∷ []) (0 ∷ 1 ∷ 9 ∷ []) []
      (7 ∷ []) (9 ∷ []) first_part second_part

decode_all-Sent_example :
    decode_all deserialize (two_messages ++ 0 ∷ 0 ∷ []) ≡ some (0 ∷ 0 ∷ [], ok (7 ∷ 9 ∷ []))
decode_all-Sent_example =
    decode_all-Sent serialize deserialize round_trip (7 ∷ 9 ∷ []) two_messages (0 ∷ 0 ∷ [])
      (sent seven (sent nine sent_none)) tail_waits
