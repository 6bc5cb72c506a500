-- ===== src/Proto/Mux.antt =====
-- The frames of the multiplexed connection and its streams: crates/localup-proto/src/mux.rs.
-- Each operation of the multiplexer holds both of its locks from its first to its last access, so it is
-- one step on the state.
pub mod Flags
pub mod Frames
pub mod Truncation
pub mod Allocation
pub mod Exhaustion
pub mod Streams
use localup.Base.{
  ℕ, zero, suc, ◌+◌, ◌%◌, Bool, true, false, Option, none, some, [], ◌∷◌, ◌++◌, ltb, leb, eqb,
  if◌then◌else◌, length, take, drop, Map, lookup, remove, insert, contains_key, Bytes, Result, ok,
  err, ◌>>=◌, ◌>>◌, ensure, nat_eq,
}
use localup.Base.Words.{put_u32, get_u32, word_size}

pub data FrameType : Type 0 where
  control data_frame close window_update : FrameType

pub data MuxError : Type 0 where
  invalid_frame_type frame_too_large : ℕ → MuxError
  incomplete_frame : MuxError
  stream_not_found stream_already_exists : ℕ → MuxError
  no_available_stream_ids : MuxError

-- `frame_type as u8`
unfoldable pub type_code : FrameType → ℕ
type_code control = 0
type_code data_frame = 1
type_code close = 2
type_code window_update = 3

-- `FrameType::try_from`
unfoldable pub frame_type_of : ℕ → Result MuxError FrameType
frame_type_of value =
    if eqb value 0
    then ok control
    else if eqb value 1
    then ok data_frame
    else if eqb value 2
    then ok close
    else if eqb value 3
    then ok window_update
    else err (invalid_frame_type value)

pub record Frame : Type 0 where
  pub stream_id : ℕ
  pub frame_type : FrameType
  pub flags : ℕ
  pub payload : Bytes

abbrev pub header_size : ℕ
header_size = 10

abbrev pub max_frame_size : ℕ
max_frame_size = 16777216

abbrev pub control_stream_id : ℕ
control_stream_id = 0

abbrev pub frame : ℕ → FrameType → Bytes → Frame
frame stream_id frame_type payload = record {
  stream_id = stream_id;
  frame_type = frame_type;
  flags = 0;
  payload = payload;
}

unfoldable pub encode : Frame → Result MuxError Bytes
encode f =
    if ltb max_frame_size (length f.payload)
    then err (frame_too_large (length f.payload))
    else ok (
        put_u32 f.stream_id
        ++ type_code f.frame_type ∷ f.flags ∷ (put_u32 (length f.payload) ++ f.payload))

-- The first byte, `buf.get_u8()`; `decode` has checked that there are bytes.
abbrev pub get_u8 : Bytes → ℕ
get_u8 [] = 0
get_u8 (b ∷ rest) = b

unfoldable pub decode : Bytes → Result MuxError Frame
decode buf = do
  ensure (leb header_size (length buf)) incomplete_frame
  let stream_id = get_u32 buf
  frame_type ← frame_type_of (get_u8 (drop 4 buf))
  let flags = get_u8 (drop 5 buf)
  let len = get_u32 (drop 6 buf)
  ensure (leb len max_frame_size) (frame_too_large len)
  ensure (leb len (length (drop 10 buf))) incomplete_frame
  ok (record {
    stream_id = stream_id;
    frame_type = frame_type;
    flags = flags;
    payload = take len (drop 10 buf);
  })

pub data StreamState : Type 0 where
  opened half_closed closed : StreamState

pub record Multiplexer : Type 0 where
  pub next_stream_id : ℕ
  pub streams : Map ℕ StreamState

abbrev pub multiplexer : Multiplexer
multiplexer = record { next_stream_id = 1; streams = [] }

pub data Round : Type 0 where
  again : Multiplexer → Round
  done : Multiplexer → Result MuxError ℕ → Round

-- One round of the loop of `allocate_stream`.
unfoldable pub allocate_round : ℕ → Multiplexer → Round
allocate_round start_id m =
    let id = m.next_stream_id in
    let next = (id + 1) % word_size in
    if eqb id control_stream_id
    then again (record { next_stream_id = 1; streams = m.streams })
    else if contains_key id m.streams
    then (if eqb next start_id
        then done (record { next_stream_id = next; streams = m.streams })
            (err no_available_stream_ids)
        else again (record { next_stream_id = next; streams = m.streams }))
    else done (record { next_stream_id = next; streams = insert id opened m.streams }) (ok id)

abbrev pub next_round :
    (Multiplexer → Option (Multiplexer × Result MuxError ℕ))
    → Round
    → Option (Multiplexer × Result MuxError ℕ)
next_round rest (again m) = rest m
next_round rest (done m result) = some (m, result)

-- The loop of `allocate_stream`, on fuel: `none` says that the rounds ran out.
unfoldable pub allocate_loop : ℕ → ℕ → Multiplexer → Option (Multiplexer × Result MuxError ℕ)
allocate_loop zero start_id m = none
allocate_loop (suc fuel) start_id m =
    next_round (λ m'. allocate_loop fuel start_id m') (allocate_round start_id m)

unfoldable pub allocate_stream : ℕ → Multiplexer → Option (Multiplexer × Result MuxError ℕ)
allocate_stream fuel m = allocate_loop fuel m.next_stream_id m

unfoldable pub register_stream : Multiplexer → ℕ → Multiplexer × Result MuxError (Unit {0})
register_stream m stream_id =
    if contains_key stream_id m.streams then (m, err (stream_already_exists stream_id)) else (
      record { next_stream_id = m.next_stream_id; streams = insert stream_id opened m.streams },
      ok tt,
    )

unfoldable pub close_stream : Multiplexer → ℕ → Multiplexer × Result MuxError (Unit {0})
close_stream m stream_id =
    if contains_key stream_id m.streams
    then (
      record { next_stream_id = m.next_stream_id; streams = insert stream_id closed m.streams },
      ok tt,
    )
    else (m, err (stream_not_found stream_id))

unfoldable pub remove_stream : Multiplexer → ℕ → Multiplexer
remove_stream m stream_id = record {
  next_stream_id = m.next_stream_id;
  streams = remove stream_id m.streams;
}

unfoldable pub get_stream_state : Multiplexer → ℕ → Option StreamState
get_stream_state m stream_id = lookup stream_id m.streams

abbrev is_open : StreamState → Bool
is_open opened = true
is_open _ = false

abbrev count_open : Map ℕ StreamState → ℕ
count_open [] = 0
count_open ((id, s) ∷ m) = (if is_open s then 1 else 0) + count_open m

unfoldable pub active_streams : Multiplexer → ℕ
active_streams m = count_open m.streams
