-- ===== src/Proto/Mux/Truncation.antt =====
-- Frames of which only the first bytes have arrived.
use localup.Base.{
  ℕ, suc, ◌-◌, ◌≤◌, ◌<◌, ◌≡◌, ap, subst, inl, inr, true, false, [], arith, leb, leb→le, le→leb,
  Bool-cases, length, take, length-take, nat_eq, list_eq, Bytes, ok, err,
}
use localup.Base.Words.{put_u32, get_u32, get-put_u32}
use localup.Proto.Mux.{Frame, max_frame_size, encode, decode, incomplete_frame}
use localup.Proto.Mux.Frames.{IsFrame, wire, type-code, encode-inv, decode-short}

early_cut :
    (f : Frame) (n : ℕ)
    → leb 10 n ≡ false
    → n < length (wire f)
    → leb 10 (length (take n (wire f))) ≡ false
early_cut f n early cut =
    let e : length (take n (wire f)) ≡ n = length-take n (wire f) (omega arith) in rw e early

abbrev ten_more : ℕ → ℕ
ten_more k = suc (suc (suc (suc (suc (suc (suc (suc (suc (suc k)))))))))

late_cut :
    (f : Frame) (k : ℕ)
    → IsFrame f
    → length f.payload ≤ max_frame_size
    → k < length f.payload
    → decode (take (ten_more k) (wire f)) ≡ err incomplete_frame
unfolding decode
late_cut f k valid small cut =
    let size : get_u32 (put_u32 (length f.payload)) ≡ length f.payload =
      get-put_u32 (length f.payload) [] (omega arith) in
    let long : leb 10 (length (take (ten_more k) (wire f))) ≡ true =
      le→leb 10 (length (take (ten_more k) (wire f))) (omega arith) in
    let missing : leb (length f.payload) (length (take k f.payload)) ≡ false =
      ground (arith, length-take k f.payload) in
    rw (long, type-code f.frame_type, size, le→leb (length f.payload) max_frame_size small, missing)

ten_more-minus : (n : ℕ) → 10 ≤ n → ten_more (n - 10) ≡ n
ten_more-minus n h = omega arith

-- While part of an encoded frame is missing, decoding reports an incomplete frame.
pub decode-take :
    (f : Frame) (bytes : Bytes) (n : ℕ)
    → IsFrame f
    → encode f ≡ ok bytes
    → n < length bytes
    → decode (take n bytes) ≡ err incomplete_frame
decode-take f bytes n is_frame encoded cut =
    let (small, same) = encode-inv f bytes encoded in
    let cut' : n < length (wire f) = omega (arith, ap length same) in
    let whole : decode (take n (wire f)) ≡ err incomplete_frame = elim (Bool-cases (leb 10 n)) [
      | inr early ↦ decode-short (take n (wire f)) (early_cut f n early cut')
      | inl late ↦
          subst (λ k. decode (take k (wire f)) ≡ err incomplete_frame)
            (ten_more-minus n (leb→le 10 n late))
            (late_cut f (n - 10) is_frame small (omega (arith, leb→le 10 n late)))
    ] in
    subst (λ x. decode (take n x) ≡ err incomplete_frame) same whole
