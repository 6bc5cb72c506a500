-- ===== src/Proto/Codec.antt =====
-- The framing of the messages on a connection: crates/localup-proto/src/codec.rs.
-- `bincode` is a parameter: how it serializes a message, and what it reads from bytes, or its error.
pub mod Framing
pub mod Chunks
pub mod Delivery
use localup.Base.{
  ℕ, zero, suc, ◌+◌, Option, none, some, List, [], ◌∷◌, ◌++◌, ltb, leb, if◌then◌else◌, length, take,
  drop, Bytes, Result, ok, err, ◌>>=◌, ◌>>◌, ensure, map_err,
}
use localup.Base.Words.{put_u32, get_u32, word_size}

pub data CodecError (E : Type 0) : Type 0 where
  serialization_error : E → CodecError E
  message_too_large : ℕ → CodecError E
  incomplete_message : CodecError E

abbrev pub max_message_size : ℕ
max_message_size = 16777216

module _ {Message E : Type 0} (serialize : Message → Result E Bytes) where
  unfoldable pub encode : Message → Result (CodecError E) Bytes
  encode msg = do
    payload ← map_err serialization_error (serialize msg)
    ensure (leb (length payload) max_message_size) (message_too_large (length payload))
    ok (put_u32 (length payload) ++ payload)

module _ {Message E : Type 0} (deserialize : Bytes → Result E Message) where
  -- The buffer behind the call, and what the call returned; the length is a u32.
  unfoldable pub decode : Bytes → Bytes × Result (CodecError E) (Option Message)
  decode buf =
      let len = get_u32 buf in
      if ltb (length buf) 4
      then (buf, ok none)
      else if ltb max_message_size len
      then (buf, err (message_too_large len))
      else if ltb (length buf) (4 + len)
      then (buf, ok none)
      else (
        drop len (drop 4 buf),
        map_err serialization_error (deserialize (take len (drop 4 buf))) >>= λ msg. ok (some msg),
      )

  -- `messages` holds what was decoded before.
  abbrev pub next_message :
      (Bytes → List Message → Option (Bytes × Result (CodecError E) (List Message)))
      → List Message
      → Bytes × Result (CodecError E) (Option Message)
      → Option (Bytes × Result (CodecError E) (List Message))
  next_message rest messages (buf, err e) = some (buf, err e)
  next_message rest messages (buf, ok none) = some (buf, ok messages)
  next_message rest messages (buf, ok (some msg)) = rest buf (messages ++ msg ∷ [])

  -- The loop of `decode_all`, on fuel: `none` says that the rounds ran out.
  unfoldable pub decode_loop :
      ℕ → Bytes → List Message → Option (Bytes × Result (CodecError E) (List Message))
  decode_loop zero buf messages = none
  decode_loop (suc fuel) buf messages =
      next_message (λ b ms. decode_loop fuel b ms) messages (decode buf)

  -- A round that goes on takes four bytes at least, so the length of the buffer bounds the rounds.
  unfoldable pub decode_all : Bytes → Option (Bytes × Result (CodecError E) (List Message))
  decode_all buf = decode_loop (suc (length buf)) buf []
