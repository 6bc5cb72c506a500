-- ===== src/Proto/IpFilter/Allowing.antt =====
-- What an allowlist lets through, from its texts to the decision.
use localup.Base.{
  ◌≤◌, ◌≡◌, refl, ap, ◌∙◌, subst, ◌↔◌, ◌⊎◌, inl, inr, Bool, true, false, Option, none, some, List,
  [], ◌∷◌, ◌++◌, append-nil, append_assoc, arith, leb, if◌then◌else◌, leb→le, Bool-cases,
  Option-cases, is_empty, any, Any, here, there, nat_eq, list_eq, Text, split_once, ok, ensure,
  >>=-eq-ok, parse_uint,
}
use localup.Proto.IpFilter.{
  IpAddr, IpNetwork, invalid_ip_address, invalid_cidr, IpFilter, max_prefix, contains, parse,
  parse_cidr, parse_single, parse_all, from_allowlist, init_loop, init, is_allowed, deserialized,
  or_fail,
}
use localup.Proto.IpFilter.Prefixes.{IsAddr, SharesPrefix, contains_iff}

module _ (from_str : Text → Option IpAddr) where
  -- An entry names a network that shares its prefix with the address.
  abbrev pub Covers : IpAddr → Text → Type 0
  Covers ip entry =
      (n : IpNetwork) × (parse from_str entry ≡ ok n) × SharesPrefix n.addr n.prefix_len ip

ensured {ℓ} : {E : Type ℓ} (e : E) (b : Bool) {u : Unit {0}} → ensure b e ≡ ok u → b ≡ true
ensured e true h = refl
ensured e false h = cc

some_of_or_fail {ℓ κ} :
    {E : Type ℓ} {A : Type κ} (e : E) (o : Option A) {a : A} → or_fail o e ≡ ok a → o ≡ some a
some_of_or_fail e none h = cc
some_of_or_fail e (some b) h = cc

module _ (from_str : Text → Option IpAddr)
    (in_range : (s : Text) (a : IpAddr) → from_str s ≡ some a → IsAddr a) where
  parse_cidr-bounds :
      (s ip_str prefix_str : Text) (n : IpNetwork)
      → parse_cidr from_str s ip_str prefix_str ≡ ok n
      → (n.prefix_len ≤ max_prefix n.addr) × IsAddr n.addr
  unfolding parse_cidr
  parse_cidr-bounds s ip_str prefix_str n h =
      let (addr, found, h1) = >>=-eq-ok (or_fail (from_str ip_str) (invalid_ip_address s)) _ h in
      let (p, read, h2) = >>=-eq-ok (or_fail (parse_uint 255 prefix_str) (invalid_cidr s)) _ h1 in
      let (u, short, h3) = >>=-eq-ok (ensure (leb p (max_prefix addr)) (invalid_cidr s)) _ h2 in
      let same : addr ≡ n.addr = cc h3 in
      let len : p ≡ n.prefix_len = cc h3 in
      (
        subst (λ a. n.prefix_len ≤ max_prefix a) same
            (subst (λ q. q ≤ max_prefix addr) len
              (leb→le p (max_prefix addr)
                (ensured (invalid_cidr s) (leb p (max_prefix addr)) short))),
        subst IsAddr same
            (in_range ip_str addr (some_of_or_fail (invalid_ip_address s) (from_str ip_str) found)),
      )

  parse_single-bounds :
      (s : Text) (n : IpNetwork)
      → parse_single from_str s ≡ ok n
      → (n.prefix_len ≤ max_prefix n.addr) × IsAddr n.addr
  unfolding parse_single
  parse_single-bounds s n h =
      let (addr, found, h1) = >>=-eq-ok (or_fail (from_str s) (invalid_ip_address s)) _ h in
      let same : addr ≡ n.addr = cc h1 in
      let len : max_prefix addr ≡ n.prefix_len = cc h1 in
      (
        subst (λ a. n.prefix_len ≤ max_prefix a) same (omega (arith, len)),
        subst IsAddr same
            (in_range s addr (some_of_or_fail (invalid_ip_address s) (from_str s) found)),
      )

  -- Whatever is parsed has a prefix length and an address that fit its family.
  pub parse-bounds :
      (s : Text) (n : IpNetwork)
      → parse from_str s ≡ ok n
      → (n.prefix_len ≤ max_prefix n.addr) × IsAddr n.addr
  unfolding parse
  parse-bounds s n h = elim (Option-cases (split_once b'/' s)) [
    | inl e ↦ parse_single-bounds s n (rw (e, parse) at h)
    | inr ((ip_str, prefix_str), e) ↦ parse_cidr-bounds s ip_str prefix_str n (rw (e, parse) at h)
  ]

  contains-parsed :
      (ip : IpAddr) (s : Text) (n : IpNetwork)
      → IsAddr ip
      → parse from_str s ≡ ok n
      → (contains n ip ≡ true) ↔ SharesPrefix n.addr n.prefix_len ip
  contains-parsed ip s n h e =
      let (short, fits) = parse-bounds s n e in contains_iff n ip short fits h

  any-cons :
      (ip : IpAddr) (entry : Text) (rest : List Text) (n : IpNetwork) (ns : List IpNetwork)
      → IsAddr ip
      → parse from_str entry ≡ ok n
      → (any (λ network. contains network ip) ns ≡ true) ↔ Any (Covers from_str ip) rest
      → (any (λ network. contains network ip) (n ∷ ns) ≡ true)
        ↔ Any (Covers from_str ip) (entry ∷ rest)
  any-cons ip entry rest n ns a parsed ih = (forth, back)
    where
      forth :
          any (λ network. contains network ip) (n ∷ ns) ≡ true
          → Any (Covers from_str ip) (entry ∷ rest)
      forth e = elim (Bool-cases (contains n ip)) [
        | inl hit ↦ here (n, parsed, (contains-parsed ip entry n a parsed).0 hit)
        | inr miss ↦ there (ih.0 (rw miss at e))
      ]

      back :
          Any (Covers from_str ip) (entry ∷ rest)
          → any (λ network. contains network ip) (n ∷ ns) ≡ true
      back (here (m, parsed', shares)) =
          let hit : contains m ip ≡ true = (contains-parsed ip entry m a parsed').1 shares in
          let same : m ≡ n = cc (parsed, parsed') in
          rw (subst (λ k. contains k ip ≡ true) same hit) refl
      back (there later) = ground (arith, ih.1 later)

  any-parse_all :
      (ip : IpAddr) (entries : List Text) (networks : List IpNetwork)
      → IsAddr ip
      → parse_all from_str entries ≡ ok networks
      → (any (λ network. contains network ip) networks ≡ true) ↔ Any (Covers from_str ip) entries
  unfolding parse_all
  any-parse_all ip [] networks a h =
      let same : [] ≡ networks = cc h in rw (← same) ((λ e. cc), (λ c. elim c [ ]))
  any-parse_all ip (entry ∷ rest) networks a h =
      let (n, parsed, h') = >>=-eq-ok (parse from_str entry) _ h in
      let (ns, rest_ok, done) = >>=-eq-ok (parse_all from_str rest) _ h' in
      let same : (n ∷ ns) ≡ networks = cc done in
      rw (← same) (any-cons ip entry rest n ns a parsed (any-parse_all ip rest ns a rest_ok))

  parse_all-empty :
      (entries : List Text) (networks : List IpNetwork)
      → parse_all from_str entries ≡ ok networks
      → is_empty networks ≡ is_empty entries
  unfolding parse_all
  parse_all-empty [] networks h = let same : [] ≡ networks = cc h in rw (← same)
  parse_all-empty (entry ∷ rest) networks h =
      let (n, parsed, h') = >>=-eq-ok (parse from_str entry) _ h in
      let (ns, rest_ok, done) = >>=-eq-ok (parse_all from_str rest) _ h' in
      let same : (n ∷ ns) ≡ networks = cc done in rw (← same)

  -- A filter made from an allowlist lets an address pass exactly if the allowlist is empty or one of its
  -- entries names a network of the address's family whose prefix the address shares. It is assumed that
  -- `from_str` returns numbers that fit the address family, and that the tested address does.
  pub is_allowed-from_allowlist :
      (entries : List Text) (f : IpFilter) (ip : IpAddr)
      → IsAddr ip
      → from_allowlist from_str entries ≡ ok f
      → (is_allowed f ip ≡ true) ↔ ((entries ≡ []) ⊎ Any (Covers from_str ip) entries)
  unfolding from_allowlist is_allowed
  is_allowed-from_allowlist entries f ip a h =
      let (ns, parsed, done) = >>=-eq-ok (parse_all from_str entries) _ h in
      let same : ns ≡ f.networks = cc done in
      rw (← same) (
        decide ns entries (parse_all-empty entries ns parsed)
          (any-parse_all ip entries ns a parsed))
    where
      decide :
          (ns : List IpNetwork) (entries : List Text)
          → is_empty ns ≡ is_empty entries
          → (any (λ network. contains network ip) ns ≡ true) ↔ Any (Covers from_str ip) entries
          → ((if is_empty ns then true else any (λ network. contains network ip) ns) ≡ true)
            ↔ ((entries ≡ []) ⊎ Any (Covers from_str ip) entries)
      decide ns [] e ih = rw e ((λ _. inl refl), (λ _. refl))
      decide ns (entry ∷ rest) e ih =
          rw e ((λ t. inr (ih.0 t)), elim [ inl bare ↦ cc bare | inr c ↦ ih.1 c ])

module _ (from_str : Text → Option IpAddr) where
  init_loop-parse_all :
      (entries : List Text) (before networks : List IpNetwork)
      → parse_all from_str entries ≡ ok networks
      → init_loop from_str entries before ≡ (before ++ networks, ok tt)
  unfolding init_loop parse_all
  init_loop-parse_all [] before networks h =
      let same : [] ≡ networks = cc h in rw (← same) (rw append-nil)
  init_loop-parse_all (entry ∷ rest) before networks h =
      let (n, parsed, h') = >>=-eq-ok (parse from_str entry) _ h in
      let (ns, rest_ok, done) = >>=-eq-ok (parse_all from_str rest) _ h' in
      let same : (n ∷ ns) ≡ networks = cc done in
      rw (← same) (
        rw (parsed, init_loop)
          (init_loop-parse_all rest (before ++ n ∷ []) ns rest_ok
            ∙ ap (λ l. (l, ok tt)) (append_assoc before (n ∷ []) ns)))

  -- A filter made from an allowlist, written and read again, lets every address pass until `init` is
  -- called, and is the same filter afterwards.
  pub init-deserialized :
      (entries : List Text) (f : IpFilter) (ip : IpAddr)
      → from_allowlist from_str entries ≡ ok f
      → (is_allowed (deserialized f) ip ≡ true) × (init from_str (deserialized f) ≡ (f, ok tt))
  unfolding from_allowlist init is_allowed
  init-deserialized entries f ip h =
      let (ns, parsed, done) = >>=-eq-ok (parse_all from_str entries) _ h in
      let same : record { allowlist = entries; networks = ns } ≡ f = cc done in
      rw (← same) (refl, rw (init_loop-parse_all entries [] ns parsed) refl)
