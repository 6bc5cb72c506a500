-- ===== src/Servers/Https/Gateway.antt =====
-- Which requests the HTTPS server lets through to a tunnel.
use localup.Base.{
  ℕ, ◌≡◌, refl, sym, ap, ◌∙◌, ◌↔◌, inl, inr, Bool, true, false, Option, none, some, Bool-cases,
  is_empty, nat_eq, list_eq, Bytes, Text, codes, Result, ok, err, ensure, map_err, >>=-eq-ok, ok_or,
  ok_or_ok, map_err_ok, ensure_ok,
}
use localup.Router.Registry.{http_host, RouteTarget, is_ip_allowed, RouteRegistry, lookup_route}
use localup.Proto.IpFilter.{SocketAddr}
use localup.Control.Connections.{Connections}
use localup.Servers.Requests.{
  Texts, lines, strip_prefix, Reply, no_host, not_found, denied, not_a_tunnel, not_configured,
  closed, Forward, to_tunnel, skip_line, host_value, request_path, Challenges, acme, continue,
  find_connection,
}
use localup.Servers.Requests.Passing.{IsPassed, find_connection_iff, continue_ok}
use localup.Servers.Https.{both, route_request, handle_connection}

module _ (t : Texts) (challenges : Challenges) (manager : Option Connections) (has_pending : Bool)
    (registry : RouteRegistry) (peer : SocketAddr) (buffer : Bytes) where
  -- What a request needs to reach a connection.
  pub record IsServed (connection : ℕ) : Type 0 where
    pub host : Text
    pub target : RouteTarget
    pub localup_id : Text
    pub connections : Connections
    pub nonempty : is_empty buffer ≡ false
    pub has_host : host_value t (skip_line (lines (t.from_utf8_lossy buffer))) ≡ some host
    pub no_challenge :
        acme challenges host (request_path t (lines (t.from_utf8_lossy buffer))) ≡ none
    pub routed : lookup_route registry (http_host host) ≡ ok target
    pub allowed : is_ip_allowed target peer ≡ true
    pub tunneled : strip_prefix (codes "tunnel:") target.target_addr ≡ some localup_id
    pub configured : both manager has_pending ≡ some connections
    pub passed : IsPassed t connections localup_id buffer connection

  route_request-IsServed :
      (connection : ℕ)
      → is_empty buffer ≡ false
      → route_request t challenges manager has_pending registry peer buffer
        ≡ ok (to_tunnel connection)
      → IsServed connection
  unfolding route_request
  route_request-IsServed connection nonempty h =
      let (host, e1, h1) = >>=-eq-ok (ok_or no_host (host_value t _)) _ h in
      let (u2, e2, h2) = >>=-eq-ok (continue (acme challenges host _)) _ h1 in
      let (target, e3, h3) =
        >>=-eq-ok (map_err (λ _. not_found) (lookup_route registry (http_host host))) _ h2 in
      let (u4, e4, h4) = >>=-eq-ok (ensure (is_ip_allowed target peer) denied) _ h3 in
      let (id, e5, h5) = >>=-eq-ok (ok_or not_a_tunnel (strip_prefix _ target.target_addr)) _ h4 in
      let (connections, e6, h6) =
        >>=-eq-ok (ok_or not_configured (both manager has_pending)) _ h5 in
      let (found, e7, h7) = >>=-eq-ok (find_connection t connections id buffer) _ h6 in
      let same : found ≡ connection = same_connection found h7 in
      record {
        host = host;
        target = target;
        localup_id = id;
        connections = connections;
        nonempty = nonempty;
        has_host = ok_or_ok no_host _ host e1;
        no_challenge = continue_ok _ u2 e2;
        routed = map_err_ok (λ _. not_found) _ target e3;
        allowed = ensure_ok _ denied e4;
        tunneled = ok_or_ok not_a_tunnel _ id e5;
        configured = ok_or_ok not_configured _ connections e6;
        passed = (find_connection_iff t connections id buffer connection).0 (e7 ∙ ap ok same);
      }
    where
      same_connection :
          (found : ℕ)
          → ◌≡◌ {A = Result Reply Forward} (ok (to_tunnel found)) (ok (to_tunnel connection))
          → found ≡ connection
      same_connection found x = cc

  IsServed-route_request :
      (connection : ℕ)
      → IsServed connection
      → route_request t challenges manager has_pending registry peer buffer
        ≡ ok (to_tunnel connection)
  unfolding route_request
  IsServed-route_request connection s = rw s.has_host (
      rw s.no_challenge (
        rw s.routed (
          rw s.allowed (
            rw s.tunneled (
              rw s.configured (
                rw ((find_connection_iff t s.connections s.localup_id buffer connection).1 s.passed)
                  refl))))))

  -- A request reaches a connection exactly if it names a host in a Host header, is not answered as an ACME
  -- challenge, its host has a route whose filter allows the peer and whose target is a tunnel, the server
  -- has its managers, and the tunnel has this connection and the headers present what its authentication
  -- asks for.
  pub handle_connection_iff :
      (connection : ℕ)
      → (handle_connection t challenges manager has_pending registry peer buffer
          ≡ ok (to_tunnel connection))
        ↔ IsServed connection
  unfolding handle_connection
  handle_connection_iff connection = elim (Bool-cases (is_empty buffer)) [
    | inl empty ↦ (
      λ h. absurd (refused (rw (empty, handle_connection) at h)),
      λ s. absurd (clash (sym empty ∙ s.nonempty)),
    )
    | inr nonempty ↦ (
      λ h. route_request-IsServed connection nonempty (rw (nonempty, handle_connection) at h),
      λ s. rw (nonempty, handle_connection) (IsServed-route_request connection s),
    )
  ]
    where
      refused : ◌≡◌ {A = Result Reply Forward} (err closed) (ok (to_tunnel connection)) → ⊥
      refused x = cc

      clash : true ≡ false → ⊥
      clash x = cc
