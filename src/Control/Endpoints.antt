-- ===== src/Control/Endpoints.antt =====
-- The endpoints of a tunnel: `Protocol` and `Endpoint` of crates/localup-proto/src/messages.rs, and
-- `generate_subdomain` and `build_endpoints` of crates/localup-control/src/handler.rs. The 64-bit hash of a
-- tunnel and its peer is a parameter. A domain provider is an object with a state: its state type, and what
-- `generate_subdomain` of it does to that state, are parameters.
pub mod Subdomains
use localup.Base.{
  unwrap_or, ℕ, zero, suc, ◌+◌, ◌/◌, ◌%◌, Bool, true, false, not, ◌&&◌, Option, none, some, List,
  [], ◌∷◌, ◌++◌, ltb, eqb, if◌then◌else◌, get_elem?, is_empty, Text, codes,
}

pub data Protocol : Type 0 where
  tcp : ℕ → Protocol
  tls : ℕ → List Text → Protocol
  http https : Option Text → Option Text → Protocol

pub record Endpoint : Type 0 where
  pub protocol : Protocol
  pub public_url : Text
  pub port : Option ℕ

-- The decimal digits of a number, on fuel.
unfoldable pub decimal_digits : ℕ → ℕ → Text
decimal_digits zero n = []
decimal_digits (suc fuel) n =
    let front = decimal_digits fuel (n / 10) in
    if ltb n 10 then (b'0' + n) ∷ [] else front ++ ((b'0' + n % 10) ∷ [])

-- Display of an unsigned integer
unfoldable pub decimal : ℕ → Text
decimal n = decimal_digits (suc n) n

abbrev pub charset : Text
charset = codes "abcdefghijklmnopqrstuvwxyz0123456789"

-- The rounds of `generate_subdomain` that are left, and what remains of the hash.
unfoldable pub subdomain_chars : ℕ → ℕ → Text
subdomain_chars zero remaining = []
subdomain_chars (suc rounds) remaining =
    let rest = subdomain_chars rounds (remaining / 36) in
    elim (get_elem? charset (remaining % 36)) [ none ↦ rest | some c ↦ c ∷ rest ]

unfoldable pub generate_subdomain : ℕ → Text
generate_subdomain hash = subdomain_chars 6 hash

pub record DomainContext : Type 0 where
  pub client_id : Option Text
  pub local_port : Option ℕ
  pub protocol : Option Text

-- What `build_endpoints` asks of a domain provider with states in `S`. The provider reports an error as
-- `none`.
pub record DomainProvider (S : Type 0) : Type 0 where
  pub allow_manual_subdomain : Bool
  pub generate : S → DomainContext → Option Text × S

-- The fields of the handler that `build_endpoints` reads.
pub record Ports : Type 0 where
  pub tls_port : Option ℕ
  pub https_port : Option ℕ

-- The URL of a host that the relay serves on the given port of HTTPS.
unfoldable pub https_url : Text → ℕ → Text
https_url host port =
    if eqb port 443
    then codes "https://" ++ host
    else codes "https://" ++ host ++ (b':' ∷ decimal port)

-- Slices of text joined by `, `
abbrev join_comma : List Text → Text
join_comma [] = []
join_comma (p ∷ []) = p
join_comma (p ∷ q ∷ ps) = p ++ codes ", " ++ join_comma (q ∷ ps)

unfoldable pub host_name : Text → Text → Text
host_name sub domain = sub ++ (b'.' ∷ domain)

abbrev pub context_of : Text → Text → DomainContext
context_of localup_id protocol_name = record {
  client_id = some localup_id;
  local_port = some 0;
  protocol = some protocol_name;
}

-- A generated subdomain, by the provider or, without a provider or after an error of it, from the hash.
unfoldable pub generated :
    {S : Type 0} → Option (DomainProvider S) → S → DomainContext → ℕ → Text × S
generated none s context hash = (generate_subdomain hash, s)
generated (some provider) s context hash =
    let (name, s') = provider.generate s context in (unwrap_or (generate_subdomain hash) name, s')

abbrev pub allows_manual : {S : Type 0} → Option (DomainProvider S) → Bool
allows_manual none = true
allows_manual (some provider) = provider.allow_manual_subdomain

abbrev pub given : Option Text → Bool
given none = false
given (some s) = not (is_empty s)

-- `actual_subdomain`
unfoldable pub actual_subdomain :
    {S : Type 0} → Option (DomainProvider S) → S → DomainContext → ℕ → Option Text → Text × S
actual_subdomain provider s context hash subdomain =
    if given subdomain && allows_manual provider
    then (unwrap_or [] subdomain, s)
    else generated provider s context hash

-- The endpoint of an HTTP or HTTPS protocol, which `make` rebuilds.
unfoldable pub web_endpoint :
    {S : Type 0}
    → (Option Text → Option Text → Protocol)
    → Text
    → Option (DomainProvider S)
    → Ports
    → Text
    → Text
    → ℕ
    → S
    → Option Text
    → Option Text
    → Endpoint × S
web_endpoint make protocol_name provider ports domain localup_id hash s subdomain custom_domain =
    let actual_port = unwrap_or 443 ports.https_port in
    if given custom_domain
    then (
      record {
        protocol = make none custom_domain;
        public_url = https_url (unwrap_or [] custom_domain) actual_port;
        port = none;
      },
      s,
    )
    else (let (name, s') =
          actual_subdomain provider s (context_of localup_id protocol_name) hash subdomain in
        (
          record {
            protocol = make (some name) none;
            public_url = https_url (host_name name domain) actual_port;
            port = some actual_port;
          },
          s',
        ))

unfoldable pub build_endpoint :
    {S : Type 0} → Option (DomainProvider S) → Ports → Text → Text → ℕ → S → Protocol → Endpoint × S
build_endpoint provider ports domain id hash s (http sub custom) =
    web_endpoint http (codes "http") provider ports domain id hash s sub custom
build_endpoint provider ports domain id hash s (https sub custom) =
    web_endpoint https (codes "https") provider ports domain id hash s sub custom
build_endpoint provider ports domain id hash s (tcp port) = (
  record {
    protocol = tcp port;
    public_url = codes "tcp://" ++ domain ++ (b':' ∷ decimal port);
    port = some port;
  },
  s,
)
build_endpoint provider ports domain id hash s (tls port patterns) =
    let actual_port = unwrap_or port ports.tls_port in
    (
      record {
        protocol = tls port patterns;
        public_url =
            codes "tls://"
            ++ domain
            ++ (b':' ∷ decimal actual_port)
            ++ codes " (SNI: "
            ++ join_comma patterns
            ++ codes ")";
        port = some actual_port;
      },
      s,
    )

unfoldable pub build_endpoints :
    {S : Type 0}
    → Option (DomainProvider S)
    → Ports
    → Text
    → Text
    → ℕ
    → S
    → List Protocol
    → List Endpoint × S
build_endpoints provider ports domain id hash s [] = ([], s)
build_endpoints provider ports domain id hash s (p ∷ protocols) =
    let (e, s') = build_endpoint provider ports domain id hash s p in
    let (endpoints, s'') = build_endpoints provider ports domain id hash s' protocols in
    (e ∷ endpoints, s'')
