-- ===== src/Router/Sni/Fuel.antt =====
-- The search for the server name ends.
use localup.Base.{
  ℕ, zero, suc, ◌+◌, ◌*◌, ◌≤◌, ◌<◌, ◌≡◌, refl, ap, ◌∙◌, subst, ◌≢◌, ◌⊎◌, inl, inr, Bool, true,
  false, not, ◌&&◌, arith, ltb, leb, eqb, if◌then◌else◌, leb→le, Bool-cases, Option-cases, length,
  get_elem?, is_empty, nat_eq, list_eq, Bytes, Text, Result, ok, err, ◌>>=◌, ensure, >>=-eq-ok,
}
use localup.Base.Utf8.{is_utf8}
use localup.Router.Sni.{
  Stop, fails, panics, stuck, SniRouterError, at, at_u16, slice, parse_sni_extension, name_at,
  search_step, continue, search_extensions, fail_unless, skip_to_extensions, extract_sni,
}

-- How a run ended: not by running out of fuel.
abbrev HasFuel : {A : Type 0} → Result Stop A → Type 0
HasFuel (ok a) = Unit
HasFuel (err (fails e)) = Unit
HasFuel (err panics) = Unit
HasFuel (err stuck) = ⊥

HasFuel-bind :
    {A B : Type 0} (m : Result Stop A) (f : A → Result Stop B)
    → HasFuel m
    → ((a : A) → m ≡ ok a → HasFuel (f a))
    → HasFuel (m >>= f)
HasFuel-bind (ok a) f h k = k a refl
HasFuel-bind (err (fails e)) f h k = tt
HasFuel-bind (err panics) f h k = tt
HasFuel-bind (err stuck) f h k = h

HasFuel-ensure : (b : Bool) (e : SniRouterError) → HasFuel (ensure b (fails e))
HasFuel-ensure true e = tt
HasFuel-ensure false e = tt

HasFuel-at : (bytes : Bytes) (i : ℕ) → HasFuel (at bytes i)
unfolding at
HasFuel-at bytes i = elim (Option-cases (get_elem? bytes i)) [
  | inl e ↦ rw (e, HasFuel) tt
  | inr (b, e) ↦ rw (e, HasFuel) tt
]

HasFuel-at_u16 : (bytes : Bytes) (i : ℕ) → HasFuel (at_u16 bytes i)
unfolding at_u16
HasFuel-at_u16 bytes i =
    HasFuel-bind (at bytes i) _ (HasFuel-at bytes i)
      (λ high e. HasFuel-bind (at bytes (i + 1)) _ (HasFuel-at bytes (i + 1)) (λ low e'. tt))

HasFuel-slice : (bytes : Bytes) (from to : ℕ) → HasFuel (slice bytes from to)
unfolding slice
HasFuel-slice bytes from to = elim (Bool-cases (leb from to && leb to (length bytes))) [
  | inl e ↦ rw e tt
  | inr e ↦ rw e tt
]

HasFuel-extension : (bytes : Bytes) → HasFuel (parse_sni_extension bytes)
unfolding parse_sni_extension
HasFuel-extension bytes =
    HasFuel-bind (ensure (leb 5 (length bytes)) _) _ (HasFuel-ensure _ _) (λ u e.
      HasFuel-bind (at bytes 2) _ (HasFuel-at bytes 2) (λ name_type e.
        HasFuel-bind (ensure (eqb name_type 0) _) _ (HasFuel-ensure _ _) (λ u e.
          HasFuel-bind (at_u16 bytes 3) _ (HasFuel-at_u16 bytes 3) (λ name_len e.
            HasFuel-bind (ensure (leb (5 + name_len) (length bytes)) _) _ (HasFuel-ensure _ _)
              (λ u e.
                HasFuel-bind (slice bytes 5 (5 + name_len)) _ (HasFuel-slice bytes 5 (5 + name_len))
                  (λ hostname e.
                    HasFuel-bind (ensure (is_utf8 hostname) _) _ (HasFuel-ensure _ _) (λ u e.
                      HasFuel-bind (ensure (not (is_empty hostname)) _) _ (HasFuel-ensure _ _)
                        (λ u e. tt))))))))

name_at-inl :
    (bytes : Bytes) (from to : ℕ) (found : Text ⊎ ℕ)
    → name_at bytes from to ≡ ok found
    → (hostname : Text) × (found ≡ inl hostname)
unfolding name_at
name_at-inl bytes from to found h =
    let (extension, e, h') = >>=-eq-ok (slice bytes from to) _ h in
    let (hostname, e', h'') = >>=-eq-ok (parse_sni_extension extension) _ h' in (hostname, same h'')
  where
    same :
        {hostname : Text}
        → ◌≡◌ {A = Result Stop (Text ⊎ ℕ)} (ok (inl hostname)) (ok found)
        → found ≡ inl hostname
    same e = cc

HasFuel-name_at : (bytes : Bytes) (from to : ℕ) → HasFuel (name_at bytes from to)
unfolding name_at
HasFuel-name_at bytes from to =
    HasFuel-bind (slice bytes from to) _ (HasFuel-slice bytes from to) (λ extension e.
      HasFuel-bind (parse_sni_extension extension) _ (HasFuel-extension extension)
        (λ hostname e'. tt))

HasFuel-search_step : (bytes : Bytes) (offset : ℕ) → HasFuel (search_step bytes offset)
unfolding search_step
HasFuel-search_step bytes offset =
    HasFuel-bind (at_u16 bytes offset) _ (HasFuel-at_u16 bytes offset) (λ ext_type e.
      HasFuel-bind (at_u16 bytes (offset + 2)) _ (HasFuel-at_u16 bytes (offset + 2))
        (λ ext_len e'. branch ext_type (offset + 4 + ext_len)))
  where
    branch :
        (ext_type next : ℕ)
        → HasFuel (if eqb ext_type 0 then name_at bytes (offset + 4) next else ok (inr next))
    branch ext_type next = elim (Bool-cases (eqb ext_type 0)) [
      | inl e ↦ rw e (HasFuel-name_at bytes (offset + 4) next)
      | inr e ↦ rw e tt
    ]

-- Each round that goes on skips the four bytes of an extension's header at least.
search_step-skips :
    (bytes : Bytes) (offset next : ℕ) → search_step bytes offset ≡ ok (inr next) → offset + 4 ≤ next
unfolding search_step
search_step-skips bytes offset next h =
    let (ext_type, e, h') = >>=-eq-ok (at_u16 bytes offset) _ h in
    let (ext_len, e', h'') = >>=-eq-ok (at_u16 bytes (offset + 2)) _ h' in
    branch ext_type ext_len h''
  where
    clash : {hostname : Text} → ◌≡◌ {A = Text ⊎ ℕ} (inr next) (inl hostname) → ⊥
    clash e = cc

    same : {m : ℕ} → ◌≡◌ {A = Result Stop (Text ⊎ ℕ)} (ok (inr m)) (ok (inr next)) → m ≡ next
    same e = cc

    branch :
        (ext_type ext_len : ℕ)
        → (if eqb ext_type 0
            then name_at bytes (offset + 4) (offset + 4 + ext_len)
            else ok (inr (offset + 4 + ext_len)))
          ≡ ok (inr next)
        → offset + 4 ≤ next
    branch ext_type ext_len b = elim (Bool-cases (eqb ext_type 0)) [
      | inl e ↦
          absurd (
            clash
              ((name_at-inl bytes (offset + 4) (offset + 4 + ext_len) (inr next) (rw e at b)).1))
      | inr e ↦ omega (arith, same (rw e at b))
    ]

HasFuel-continue :
    (fuel : ℕ) (bytes : Bytes) (extensions_end : ℕ) (found : Text ⊎ ℕ)
    → ((next : ℕ) → found ≡ inr next → HasFuel (search_extensions fuel bytes extensions_end next))
    → HasFuel (continue (λ o. search_extensions fuel bytes extensions_end o) found)
HasFuel-continue fuel bytes extensions_end (inl hostname) h = tt
HasFuel-continue fuel bytes extensions_end (inr next) h = h next refl

HasFuel-search :
    (fuel : ℕ) (bytes : Bytes) (extensions_end offset : ℕ)
    → extensions_end ≤ length bytes
    → 1 ≤ fuel
    → length bytes < offset + 4 * fuel
    → HasFuel (search_extensions fuel bytes extensions_end offset)
unfolding search_extensions
HasFuel-search zero bytes extensions_end offset inside some_fuel enough = absurd (omega arith)
HasFuel-search (suc fuel) bytes extensions_end offset inside some_fuel enough =
    elim (Bool-cases (leb (offset + 4) extensions_end)) [
      | inr e ↦ rw e tt
      | inl e ↦ rw e (
          HasFuel-bind (search_step bytes offset) _ (HasFuel-search_step bytes offset) (λ found f.
            HasFuel-continue fuel bytes extensions_end found (λ next same.
              HasFuel-search fuel bytes extensions_end next inside
                (omega (arith, leb→le (offset + 4) extensions_end e))
                (omega (arith, search_step-skips bytes offset next (f ∙ ap ok same))))))
    ]

HasFuel-skip : (hello : Bytes) → HasFuel (skip_to_extensions hello)
unfolding skip_to_extensions
HasFuel-skip hello =
    HasFuel-bind (fail_unless (leb 43 (length hello))) _ (HasFuel-ensure _ _) (λ u e.
      HasFuel-bind (fail_unless (ltb 43 (length hello))) _ (HasFuel-ensure _ _) (λ u e.
        HasFuel-bind (at hello 43) _ (HasFuel-at hello 43) (λ n e.
          HasFuel-bind (fail_unless (leb (44 + n + 2) (length hello))) _ (HasFuel-ensure _ _)
            (λ u e. HasFuel-bind (at_u16 hello (44 + n)) _ (HasFuel-at_u16 hello (44 + n)) (λ c e.
              HasFuel-bind (fail_unless (ltb (44 + n + 2 + c) (length hello))) _
                (HasFuel-ensure _ _)
                (λ u e.
                  HasFuel-bind (at hello (44 + n + 2 + c)) _ (HasFuel-at hello (44 + n + 2 + c))
                    (λ m e.
                      HasFuel-bind (fail_unless (leb (44 + n + 2 + c + 1 + m + 2) (length hello))) _
                        (HasFuel-ensure _ _) (λ u e. tt))))))))

ensure_true : (b : Bool) {u : Unit {0}} → fail_unless b ≡ ok u → b ≡ true
ensure_true true h = refl
ensure_true false h = cc

HasFuel-extract : (hello : Bytes) → HasFuel (extract_sni hello)
unfolding extract_sni
HasFuel-extract hello =
    HasFuel-bind (skip_to_extensions hello) _ (HasFuel-skip hello) (λ extensions e.
      HasFuel-bind (at_u16 hello extensions) _ (HasFuel-at_u16 hello extensions) (λ len e'.
        HasFuel-bind (fail_unless (leb (extensions + 2 + len) (length hello))) _
          (HasFuel-ensure _ _)
          (λ u e''.
            HasFuel-search (length hello) hello (extensions + 2 + len) (extensions + 2)
              (leb→le (extensions + 2 + len) (length hello) (ensure_true _ e''))
              (omega (arith, leb→le (extensions + 2 + len) (length hello) (ensure_true _ e'')))
              (omega (arith, leb→le (extensions + 2 + len) (length hello) (ensure_true _ e''))))))

-- Extracting the server name returns a name or an error, or panics: the search for the extension ends
-- within as many rounds as the hello has bytes.
pub extract_sni-returns : (hello : Bytes) → extract_sni hello ≢ err stuck
extract_sni-returns hello e = subst HasFuel e (HasFuel-extract hello)
