-- ===== src/Client/Chunks/Laws.antt =====
-- Chunked bodies and more data.
use localup.Base.{
  ℕ, zero, suc, ◌-◌, ◌≤◌, ◌≡◌, refl, sym, ap, ◌∙◌, inl, inr, true, ◌&&◌, some, [], ◌∷◌, ◌++◌,
  append_assoc, arith, Bool-cases, Option-cases, length, take, drop, length-append, ◌==◌, ==_refl,
  nat_eq, list_eq, Bytes, starts_with, ends_with, contains_text, ends_with_sound,
}
use localup.Client.Chunks.{crlf, last_size, after_size, has_end, check_chunked_complete}

starts_with_self : (p s : Bytes) → starts_with p (p ++ s) ≡ true
unfolding starts_with
starts_with_self [] s = refl
starts_with_self (b ∷ p) s = ground (arith, ==_refl b, starts_with_self p s)

pub starts_with-append :
    (p s more : Bytes) → starts_with p s ≡ true → starts_with p (s ++ more) ≡ true
unfolding starts_with
starts_with-append [] s more h = refl
starts_with-append (b ∷ p) [] more h = cc
starts_with-append (b ∷ p) (c ∷ s) more h = ground (arith, starts_with-append p s more)

-- A text that is long enough decides whether it starts with another one.
starts_with-long :
    (p s more : Bytes) → length p ≤ length s → starts_with p (s ++ more) ≡ starts_with p s
unfolding starts_with
starts_with-long [] s more h = refl
starts_with-long (b ∷ p) [] more h = absurd (omega arith)
starts_with-long (b ∷ p) (c ∷ s) more h =
    ap (λ r. (b == c) && r) (starts_with-long p s more (omega arith))

contains_text-suffix : (p x s : Bytes) → contains_text p s ≡ true → contains_text p (x ++ s) ≡ true
unfolding contains_text
contains_text-suffix p [] s h = h
contains_text-suffix p (c ∷ x) s h = ground (arith, contains_text-suffix p x s h)

starts_with-contains_text : (p s : Bytes) → starts_with p s ≡ true → contains_text p s ≡ true
unfolding contains_text
starts_with-contains_text p [] h = h
starts_with-contains_text p (c ∷ s) h = ground (arith, h)

starts_with-length : (p s : Bytes) → starts_with p s ≡ true → length p ≤ length s
unfolding starts_with
starts_with-length [] s h = omega arith
starts_with-length (b ∷ p) [] h = cc
starts_with-length (b ∷ p) (c ∷ s) h = ground (arith, starts_with-length p s)

contains_text-append :
    (p s more : Bytes) → contains_text p s ≡ true → contains_text p (s ++ more) ≡ true
unfolding contains_text
contains_text-append p [] more h = starts_with-contains_text p more (starts_with-append p [] more h)
contains_text-append p (c ∷ s) more h =
    ground (arith, contains_text-append p s more, starts_with-append p (c ∷ s) more)

-- The beginning that is dropped may be shorter than `x`.
pub drop-before : (n : ℕ) (x y : Bytes) → n ≤ length x → drop n (x ++ y) ≡ drop n x ++ y
drop-before zero x y h = refl
drop-before (suc n) [] y h = absurd (omega arith)
drop-before (suc n) (c ∷ x) y h = drop-before n x y (omega arith)

after_size-length : (body after : Bytes) → after_size body ≡ some after → 3 ≤ length body
unfolding after_size
after_size-length [] after h = cc
after_size-length (c ∷ body) after h = elim (Bool-cases (starts_with last_size (c ∷ body))) [
  | inl start ↦ starts_with-length last_size (c ∷ body) start
  | inr past ↦
      let later = after_size-length body after (ground (arith, h, past)) in omega (arith, later)
]

-- More data does not change what the first size is that looks like the last.
after_size-append :
    (body after more : Bytes)
    → after_size body ≡ some after
    → after_size (body ++ more) ≡ some (after ++ more)
unfolding after_size
after_size-append [] after more h = cc
after_size-append (c ∷ body) after more h = elim (Bool-cases (starts_with last_size (c ∷ body))) [
  | inl start ↦
      ground (arith, h, start, same, dropped (starts_with-length last_size (c ∷ body) start))
  | inr past ↦ ground (arith, h, past, same, after_size-append body after more)
]
  where
    same : starts_with last_size (c ∷ body ++ more) ≡ starts_with last_size (c ∷ body)
    same = starts_with-long last_size (c ∷ body) more (after_size-length (c ∷ body) after h)

    dropped : 3 ≤ length (c ∷ body) → drop 2 (body ++ more) ≡ drop 2 body ++ more
    dropped long = drop-before 2 body more (omega arith)

-- What follows a size line contains what follows the line.
after_size-line :
    (x y : Bytes)
    → (after : Bytes) × (w : Bytes) × (after_size (x ++ (last_size ++ y)) ≡ some after)
      × (after ≡ w ++ y)
unfolding after_size
after_size-line [] y = (y, [], ground (arith, starts_with_self last_size y), refl)
after_size-line (c ∷ x) y = elim (Bool-cases (starts_with last_size (c ∷ x ++ (last_size ++ y)))) [
  | inl start ↦
      let e : drop 2 (x ++ (last_size ++ y)) ≡ drop 2 (x ++ last_size) ++ y =
        ap (drop 2) (sym (append_assoc x last_size y))
        ∙ drop-before 2 (x ++ last_size) y (omega (arith, length-append x last_size)) in
      (drop 2 (x ++ (last_size ++ y)), drop 2 (x ++ last_size), ground (arith, start), e)
  | inr past ↦
      let (after, w, found, e) = after_size-line x y in (after, w, ground (arith, past, found), e)
]

line-has_end :
    (x y : Bytes)
    → contains_text crlf y ≡ true
    → has_end (after_size (x ++ (last_size ++ y))) ≡ true
line-has_end x y h =
    let (after, w, found, e) = after_size-line x y in
    ap has_end found ∙ ap (contains_text crlf) e ∙ contains_text-suffix crlf w y h

crlf_contained : (rest : Bytes) → contains_text crlf (crlf ++ rest) ≡ true
crlf_contained rest = starts_with-contains_text crlf (crlf ++ rest) (starts_with_self crlf rest)

-- More data does not make an ended body unfinished.
pub check_chunked_complete-append :
    (body more : Bytes)
    → check_chunked_complete body ≡ true
    → check_chunked_complete (body ++ more) ≡ true
unfolding check_chunked_complete
check_chunked_complete-append body more h = elim (Option-cases (after_size body)) [
  | inl e ↦ ground (arith, h, e, last)
  | inr (after, e) ↦ elim (Bool-cases (contains_text crlf after)) [
    | inl ended ↦
        ground (
          arith,
          e,
          after_size-append body after more e,
          contains_text-append crlf after more ended,
        )
    | inr unended ↦ ground (arith, h, e, unended, last)
  ]
]
  where
    last : ends_with (last_size ++ crlf) body ≡ true → has_end (after_size (body ++ more)) ≡ true
    last ends =
        let x = take (length body - 5) body in
        let e : body ++ more ≡ x ++ (last_size ++ (crlf ++ more)) =
          ap (◌++ more) (ends_with_sound (last_size ++ crlf) body ends).0
          ∙ append_assoc x (last_size ++ crlf) more in
        ap (λ b. has_end (after_size b)) e ∙ line-has_end x (crlf ++ more) (crlf_contained more)

-- A size line that ends with 0 and the end of a later line are taken for the end of the body.
pub check_chunked_complete_early :
    (size chunk rest : Bytes)
    → check_chunked_complete (size ++ (last_size ++ (chunk ++ (crlf ++ rest)))) ≡ true
unfolding check_chunked_complete
check_chunked_complete_early size chunk rest = ground (
  arith,
  line-has_end size (chunk ++ (crlf ++ rest))
      (contains_text-suffix crlf chunk (crlf ++ rest) (crlf_contained rest)),
)
