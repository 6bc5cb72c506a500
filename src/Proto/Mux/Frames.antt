-- ===== src/Proto/Mux/Frames.antt =====
-- Frames on the wire.
use localup.Base.{
  ℕ, zero, suc, ◌+◌, ◌≤◌, ◌<◌, ◌≡◌, refl, sym, ap, ◌∙◌, subst, ◌↔◌, inl, inr, true, false, [], ◌∷◌,
  ◌++◌, append_assoc, arith, ltb, leb, leb→le, le→leb, Bool-cases, length, take, drop,
  length-append, take-append-drop, length-take, take-append, All, nat_eq, list_eq, Bytes, split,
  Result, ok, err, Result-cases,
}
use localup.Base.Words.{put_u32, get_u32, word_size, IsByte, get-put_u32, put-get_u32}
use localup.Proto.Mux.{
  FrameType, frame_too_large, incomplete_frame, control, data_frame, close, window_update, MuxError,
  type_code, frame_type_of, Frame, max_frame_size, encode, decode,
}

-- The fields fit their machine types.
abbrev pub IsFrame : Frame → Type 0
IsFrame f = (f.stream_id < word_size) × IsByte f.flags × All IsByte f.payload

-- The bytes of a frame.
abbrev pub wire : Frame → Bytes
wire f =
    put_u32 f.stream_id
    ++ type_code f.frame_type ∷ f.flags ∷ (put_u32 (length f.payload) ++ f.payload)

pub type-code : (t : FrameType) → frame_type_of (type_code t) ≡ ok t
unfolding frame_type_of type_code
type-code control = refl
type-code data_frame = refl
type-code close = refl
type-code window_update = refl

code-type : (n : ℕ) (t : FrameType) → frame_type_of n ≡ ok t → type_code t ≡ n
unfolding frame_type_of type_code
code-type n t h = ground arith

-- What stands behind a frame is not read.
decode-wire :
    (f : Frame) (rest : Bytes)
    → IsFrame f
    → length f.payload ≤ max_frame_size
    → decode (wire f ++ rest) ≡ ok f
unfolding decode
decode-wire f rest valid small =
    let number : get_u32 (put_u32 f.stream_id) ≡ f.stream_id = get-put_u32 f.stream_id [] valid.0 in
    let size : get_u32 (put_u32 (length f.payload)) ≡ length f.payload =
      get-put_u32 (length f.payload) [] (omega arith) in
    let long : leb 10 (length (wire f ++ rest)) ≡ true =
      le→leb 10 (length (wire f ++ rest)) (omega (arith, length-append f.payload rest)) in
    rw (
      long,
      length-append f.payload rest,
      type-code f.frame_type,
      number,
      size,
      le→leb (length f.payload) max_frame_size small,
      le→leb (length f.payload) (length f.payload + length rest) (omega arith),
      take-append f.payload rest,
    )

uncons :
    (n : ℕ) (xs : Bytes)
    → suc n ≤ length xs
    → (x : ℕ) × (ys : Bytes) × (xs ≡ x ∷ ys) × (n ≤ length ys)
uncons n [] h = absurd (omega arith)
uncons n (x ∷ ys) h = (x, ys, refl, omega arith)

-- A frame within the bounds of its machine types and of a frame's size
abbrev pub IsSendable : Frame → Type 0
IsSendable f = IsFrame f × (length f.payload ≤ max_frame_size)

All-take : (n : ℕ) (xs : Bytes) → All IsByte xs → All IsByte (take n xs)
All-take zero xs h = tt
All-take (suc n) [] h = tt
All-take (suc n) (x ∷ xs) h = (h.0, All-take n xs h.1)

ok-injective : {f f' : Frame} → ◌≡◌ {A = Result MuxError Frame} (ok f) (ok f') → f ≡ f'
ok-injective h = cc

clash : (e : MuxError) (f : Frame) → ◌≡◌ {A = Result MuxError Frame} (err e) (ok f) → ⊥
clash e f h = cc

decode-parts :
    (a b c d t g l₁ l₂ l₃ l₄ : ℕ) (rest : Bytes) (f : Frame)
    → decode (a ∷ b ∷ c ∷ d ∷ t ∷ g ∷ l₁ ∷ l₂ ∷ l₃ ∷ l₄ ∷ rest) ≡ ok f
    → (t' : FrameType) × (frame_type_of t ≡ ok t')
      × (leb (get_u32 (l₁ ∷ l₂ ∷ l₃ ∷ l₄ ∷ rest)) max_frame_size ≡ true)
      × (leb (get_u32 (l₁ ∷ l₂ ∷ l₃ ∷ l₄ ∷ rest)) (length rest) ≡ true)
      × (record {
        stream_id = get_u32 (a ∷ b ∷ c ∷ d ∷ []);
        frame_type = t';
        flags = g;
        payload = take (get_u32 (l₁ ∷ l₂ ∷ l₃ ∷ l₄ ∷ rest)) rest;
      }
          ≡ f)
unfolding decode
decode-parts a b c d t g l₁ l₂ l₃ l₄ rest f h =
    let len = get_u32 (l₁ ∷ l₂ ∷ l₃ ∷ l₄ ∷ rest) in
    let long : leb 10 (length (a ∷ b ∷ c ∷ d ∷ t ∷ g ∷ l₁ ∷ l₂ ∷ l₃ ∷ l₄ ∷ rest)) ≡ true =
      le→leb 10 (length (a ∷ b ∷ c ∷ d ∷ t ∷ g ∷ l₁ ∷ l₂ ∷ l₃ ∷ l₄ ∷ rest)) (omega arith) in
    let h₀ = rw long at h in
    elim (Result-cases (frame_type_of t)) [
      | inr (e, bad) ↦ absurd (clash e f (rw bad at h₀))
      | inl (t', known) ↦
          let h₁ = rw known at h₀ in
          elim (Bool-cases (leb len max_frame_size)) [
            | inr big ↦ absurd (clash (frame_too_large len) f (rw big at h₁))
            | inl small ↦
                let h₂ = rw small at h₁ in
                elim (Bool-cases (leb len (length rest))) [
                  | inr cut ↦ absurd (clash incomplete_frame f (rw cut at h₂))
                  | inl arrived ↦ (t', known, small, arrived, ok-injective (rw arrived at h₂))
                ]
          ]
    ]

assemble :
    (put : ℕ → Bytes) (id n code t g : ℕ) (w l payload after rest : Bytes)
    → put id ≡ w
    → code ≡ t
    → put n ≡ l
    → payload ++ after ≡ rest
    → w ++ t ∷ g ∷ (l ++ rest) ≡ (put id ++ code ∷ g ∷ (put n ++ payload)) ++ after
assemble put id n code t g w l payload after rest e₁ e₂ e₃ e₄ =
    rw (e₁, e₂, e₃, sym e₄)
      (sym (
        append_assoc w (t ∷ g ∷ (l ++ payload)) after
        ∙ ap (λ x. w ++ t ∷ g ∷ x) (append_assoc l payload after)))

decode-header :
    (a b c d t g l₁ l₂ l₃ l₄ : ℕ) (rest : Bytes) (f : Frame)
    → All IsByte (a ∷ b ∷ c ∷ d ∷ t ∷ g ∷ l₁ ∷ l₂ ∷ l₃ ∷ l₄ ∷ rest)
    → decode (a ∷ b ∷ c ∷ d ∷ t ∷ g ∷ l₁ ∷ l₂ ∷ l₃ ∷ l₄ ∷ rest) ≡ ok f
    → IsSendable f
      × (a ∷ b ∷ c ∷ d ∷ t ∷ g ∷ l₁ ∷ l₂ ∷ l₃ ∷ l₄ ∷ rest ≡ wire f ++ drop (length f.payload) rest)
unfolding decode
decode-header a b c d t g l₁ l₂ l₃ l₄ rest f
      (ha, (hb, (hc, (hd, (ht, (hg, (h₁, (h₂, (h₃, (h₄, hrest)))))))))) h =
    let len = get_u32 (l₁ ∷ l₂ ∷ l₃ ∷ l₄ ∷ rest) in
    let (t', known, small, arrived, same) = decode-parts a b c d t g l₁ l₂ l₃ l₄ rest f h in
    let fits = leb→le len (length rest) arrived in
    let size : length (take len rest) ≡ len = length-take len rest fits in
    let (in_range, word) = put-get_u32 a b c d [] ha hb hc hd in
    let (in_range', word') = put-get_u32 l₁ l₂ l₃ l₄ [] h₁ h₂ h₃ h₄ in
    let code : type_code t' ≡ t = code-type t t' known in
    let bounded : length (take len rest) ≤ max_frame_size =
      omega (arith, size, leb→le len max_frame_size small) in
    let whole =
      assemble put_u32 (get_u32 (a ∷ b ∷ c ∷ d ∷ [])) (length (take len rest)) (type_code t') t g
        (a ∷ b ∷ c ∷ d ∷ []) (l₁ ∷ l₂ ∷ l₃ ∷ l₄ ∷ []) (take len rest)
        (drop (length (take len rest)) rest) rest word code (ap put_u32 size ∙ word')
        (ap (λ n. take len rest ++ drop n rest) size ∙ take-append-drop len rest) in
    subst
      (λ x.
        IsSendable x
        × (a ∷ b ∷ c ∷ d ∷ t ∷ g ∷ l₁ ∷ l₂ ∷ l₃ ∷ l₄ ∷ rest
            ≡ wire x ++ drop (length x.payload) rest))
      same (((in_range, hg, All-take len rest hrest), bounded), whole)

encode-wire : (f : Frame) → length f.payload ≤ max_frame_size → encode f ≡ ok (wire f)
unfolding encode
encode-wire f small = ground arith

pub encode-inv :
    (f : Frame) (bytes : Bytes)
    → encode f ≡ ok bytes
    → (length f.payload ≤ max_frame_size) × (wire f ≡ bytes)
unfolding encode
encode-inv f bytes h = elim (Bool-cases (ltb max_frame_size (length f.payload))) [
  | inl big ↦ absurd (bad (rw big at h))
  | inr small ↦ (ground arith, same (rw small at h))
]
  where
    bad : ◌≡◌ {A = Result MuxError Bytes} (err (frame_too_large (length f.payload))) (ok bytes) → ⊥
    bad e = cc

    same : ◌≡◌ {A = Result MuxError Bytes} (ok (wire f)) (ok bytes) → wire f ≡ bytes
    same e = cc

pub decode-short : (buf : Bytes) → leb 10 (length buf) ≡ false → decode buf ≡ err incomplete_frame
unfolding decode
decode-short buf h = rw h

decode_sound :
    (buf : Bytes) (f : Frame)
    → All IsByte buf
    → decode buf ≡ ok f
    → IsSendable f × (rest : Bytes) × (buf ≡ wire f ++ rest)
decode_sound buf f valid h = elim (Bool-cases (leb 10 (length buf))) [
  | inr short ↦ absurd (clash incomplete_frame f (sym (decode-short buf short) ∙ h))
  | inl long ↦
      let (a, b₁, e₁, n₁) = uncons 9 buf (leb→le 10 (length buf) long) in
      let (b, b₂, e₂, n₂) = uncons 8 b₁ n₁ in
      let (c, b₃, e₃, n₃) = uncons 7 b₂ n₂ in
      let (d, b₄, e₄, n₄) = uncons 6 b₃ n₃ in
      let (t, b₅, e₅, n₅) = uncons 5 b₄ n₄ in
      let (g, b₆, e₆, n₆) = uncons 4 b₅ n₅ in
      let (l₁, b₇, e₇, n₇) = uncons 3 b₆ n₆ in
      let (l₂, b₈, e₈, n₈) = uncons 2 b₇ n₇ in
      let (l₃, b₉, e₉, n₉) = uncons 1 b₈ n₈ in
      let (l₄, rest, e, n) = uncons 0 b₉ n₉ in
      let split : buf ≡ a ∷ b ∷ c ∷ d ∷ t ∷ g ∷ l₁ ∷ l₂ ∷ l₃ ∷ l₄ ∷ rest = cc in
      let (sendable, same) =
        decode-header a b c d t g l₁ l₂ l₃ l₄ rest f (rw split at valid) (rw split at h) in
      (sendable, drop (length f.payload) rest, split ∙ same)
]

-- A byte string decodes to a frame exactly if it starts with what encodes the frame, and the frame is
-- one that is encoded: its fields fit their machine types and its payload the size limit.
pub decode_iff :
    (buf : Bytes) (f : Frame)
    → All IsByte buf
    → (decode buf ≡ ok f) ↔ (
        IsFrame f
        × (bytes : Bytes) × (rest : Bytes) × (encode f ≡ ok bytes)
        × (buf ≡ bytes ++ rest))
decode_iff buf f valid = (
  λ h.
      let ((is_frame, small), rest, split) = decode_sound buf f valid h in
      (is_frame, wire f, rest, encode-wire f small, split),
  λ (is_frame, bytes, rest, encoded, split).
      let (small, same) = encode-inv f bytes encoded in
      rw (split, sym same) (decode-wire f rest is_frame small),
)
