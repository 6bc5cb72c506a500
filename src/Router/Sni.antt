-- ===== src/Router/Sni.antt =====
-- Routing by the server name of a TLS ClientHello: crates/localup-router/src/sni.rs.
pub mod Fuel
use localup.Base.{
  ℕ, zero, suc, ◌+◌, ◌-◌, ◌*◌, ◌⊎◌, inl, inr, Bool, not, ◌&&◌, none, some, ltb, leb, eqb,
  if◌then◌else◌, length, get_elem?, take, drop, is_empty, Bytes, Text, codes, Result, ok, err,
  ◌>>=◌, ◌>>◌, ensure, map_err,
}
use localup.Base.Utf8.{is_utf8}
use localup.Proto.IpFilter.{IpFilter}
use localup.Router.Registry.{
  key_eq, RouteKey, tls_sni, RouteTarget, RouteError, RouteRegistry, exists,
}
use localup.Router.Registry

pub data SniRouterError : Type 0 where
  route_error : RouteError → SniRouterError
  invalid_sni : Text → SniRouterError
  sni_extraction_failed : SniRouterError

pub record SniRoute : Type 0 where
  pub sni_hostname : Text
  pub localup_id : Text
  pub target_addr : Text
  pub ip_filter : IpFilter

unfoldable pub register_route :
    RouteRegistry → SniRoute → RouteRegistry × Result SniRouterError (Unit {0})
register_route r route =
    let target : RouteTarget = record {
      localup_id = route.localup_id;
      target_addr = route.target_addr;
      metadata = none;
      ip_filter = route.ip_filter;
    } in
    let (r', result) = Registry.register r (tls_sni route.sni_hostname) target in
    (r', map_err route_error result)

unfoldable pub lookup_sni : RouteRegistry → Text → Result SniRouterError RouteTarget
lookup_sni r sni_hostname = map_err route_error (Registry.lookup_route r (tls_sni sni_hostname))

unfoldable pub unregister : RouteRegistry → Text → RouteRegistry × Result SniRouterError (Unit {0})
unregister r sni_hostname =
    let (r', result) = Registry.unregister r (tls_sni sni_hostname) in
    (r', map_err route_error (result >>= λ _. ok tt))

unfoldable pub has_route : RouteRegistry → Text → Bool
has_route r sni_hostname = exists r (tls_sni sni_hostname)

-- How an extraction ends without a name: by an error, or by a panic (an index or a slice out of range).
-- `stuck` is no outcome of the code: the fuel of the loop ran out.
pub data Stop : Type 0 where
  fails : SniRouterError → Stop
  panics stuck : Stop

-- `bytes[i]`
unfoldable pub at : Bytes → ℕ → Result Stop ℕ
at bytes i = elim (get_elem? bytes i) [ none ↦ err panics | some b ↦ ok b ]

-- `u16::from_be_bytes([bytes[i], bytes[i + 1]])`
unfoldable pub at_u16 : Bytes → ℕ → Result Stop ℕ
at_u16 bytes i = do high ← at bytes i; low ← at bytes (i + 1); ok (high * 256 + low)

-- `&bytes[from..to]`
unfoldable pub slice : Bytes → ℕ → ℕ → Result Stop Bytes
slice bytes from to =
    if leb from to && leb to (length bytes)
    then ok (take (to - from) (drop from bytes))
    else err panics

unfoldable pub parse_sni_extension : Bytes → Result Stop Text
parse_sni_extension bytes = do
  ensure (leb 5 (length bytes)) (fails sni_extraction_failed)
  name_type ← at bytes 2
  ensure (eqb name_type 0) (fails (invalid_sni (codes "Invalid name type")))
  name_len ← at_u16 bytes 3
  ensure (leb (5 + name_len) (length bytes)) (fails sni_extraction_failed)
  hostname ← slice bytes 5 (5 + name_len)
  ensure (is_utf8 hostname) (fails (invalid_sni (codes "Invalid UTF-8 in hostname")))
  ensure (not (is_empty hostname)) (fails (invalid_sni (codes "Empty hostname")))
  ok hostname

-- The name in an extension of type 0.
unfoldable pub name_at : Bytes → ℕ → ℕ → Result Stop (Text ⊎ ℕ)
name_at bytes from to = do
  extension ← slice bytes from to
  hostname ← parse_sni_extension extension
  ok (inl hostname)

-- One round of the search: the name, or the offset of the next extension.
unfoldable pub search_step : Bytes → ℕ → Result Stop (Text ⊎ ℕ)
search_step bytes offset = do
  ext_type ← at_u16 bytes offset
  ext_len ← at_u16 bytes (offset + 2)
  let next = offset + 4 + ext_len
  if eqb ext_type 0 then name_at bytes (offset + 4) next else ok (inr next)

abbrev pub continue : (ℕ → Result Stop Text) → Text ⊎ ℕ → Result Stop Text
continue rest (inl hostname) = ok hostname
continue rest (inr offset) = rest offset

-- The search for the extension of type 0 among those that end at `extensions_end`.
unfoldable pub search_extensions : ℕ → Bytes → ℕ → ℕ → Result Stop Text
search_extensions zero bytes extensions_end offset = err stuck
search_extensions (suc fuel) bytes extensions_end offset =
    let rest =
      search_step bytes offset >>= continue (λ o. search_extensions fuel bytes extensions_end o) in
    if leb (offset + 4) extensions_end then rest else err (fails sni_extraction_failed)

abbrev pub fail_unless : Bool → Result Stop (Unit {0})
fail_unless b = ensure b (fails sni_extraction_failed)

-- The offset of the extensions' length, behind the session id, cipher suites and compression methods.
unfoldable pub skip_to_extensions : Bytes → Result Stop ℕ
skip_to_extensions hello = do
  fail_unless (leb 43 (length hello))
  fail_unless (ltb 43 (length hello))
  session_id_len ← at hello 43
  let ciphers = 44 + session_id_len
  fail_unless (leb (ciphers + 2) (length hello))
  cipher_suites_len ← at_u16 hello ciphers
  let methods = ciphers + 2 + cipher_suites_len
  fail_unless (ltb methods (length hello))
  compression_methods_len ← at hello methods
  let extensions = methods + 1 + compression_methods_len
  fail_unless (leb (extensions + 2) (length hello))
  ok extensions

-- The offsets stay below the length plus 2 ^ 16, so the additions in `usize` do not wrap.
unfoldable pub extract_sni : Bytes → Result Stop Text
extract_sni hello = do
  extensions ← skip_to_extensions hello
  extensions_len ← at_u16 hello extensions
  let extensions_end = extensions + 2 + extensions_len
  fail_unless (leb extensions_end (length hello))
  search_extensions (length hello) hello extensions_end (extensions + 2)
