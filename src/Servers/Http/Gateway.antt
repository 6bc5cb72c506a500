-- ===== src/Servers/Http/Gateway.antt =====
-- Which requests the HTTP server lets through, and where to.
use localup.Base.{
  ℕ, ◌≡◌, refl, sym, ap, ◌∙◌, subst, ◌↔◌, inl, inr, true, false, Option, none, some, Bool-cases,
  is_empty, nat_eq, list_eq, Bytes, Text, codes, Result, ok, err, ensure, map_err, >>=-eq-ok, ok_or,
  ok_or_ok, map_err_ok, ensure_ok,
}
use localup.Router.Registry.{http_host, RouteTarget, is_ip_allowed, RouteRegistry, lookup_route}
use localup.Proto.IpFilter.{SocketAddr}
use localup.Control.Connections.{Connections}
use localup.Servers.Requests.{
  Texts, lines, strip_prefix, Reply, no_host, not_found, denied, not_configured, closed, Forward,
  to_tunnel, to_address, request_path, Challenges, acme, continue, find_connection,
}
use localup.Servers.Requests.Passing.{IsPassed, find_connection_iff, continue_ok}
use localup.Servers.Http.{extract_host_from_request, forward, route_request, handle_http_connection}

module _ (t : Texts) (challenges : Challenges) (manager : Option Connections)
    (registry : RouteRegistry) (peer : SocketAddr) (buffer : Bytes) where
  -- Where the target leads: to an address, or to the connection of the tunnel that it names, which the
  -- request passes to.
  abbrev pub LeadsTo : RouteTarget → Option Text → Forward → Type 0
  LeadsTo target none (to_address address) = target.target_addr ≡ address
  LeadsTo target none (to_tunnel connection) = ⊥
  LeadsTo target (some id) (to_address address) = ⊥
  LeadsTo target (some id) (to_tunnel connection) =
      (connections : Connections) × (manager ≡ some connections)
      × IsPassed t connections id buffer connection

  -- What a request needs to be forwarded.
  pub record IsServed (f : Forward) : Type 0 where
    pub host : Text
    pub target : RouteTarget
    pub nonempty : is_empty buffer ≡ false
    pub has_host : extract_host_from_request t (lines (t.from_utf8_lossy buffer)) ≡ some host
    pub no_challenge :
        acme challenges host (request_path t (lines (t.from_utf8_lossy buffer))) ≡ none
    pub routed : lookup_route registry (http_host host) ≡ ok target
    pub allowed : is_ip_allowed target peer ≡ true
    pub leads : LeadsTo target (strip_prefix (codes "tunnel:") target.target_addr) f

  forward-LeadsTo :
      (target : RouteTarget) (id : Option Text) (f : Forward)
      → forward t manager target buffer id ≡ ok f
      → LeadsTo target id f
  forward-LeadsTo target none (to_address address) h = cc
  forward-LeadsTo target none (to_tunnel connection) h = cc
  forward-LeadsTo target (some id) f h =
      let (connections, e, h1) = >>=-eq-ok (ok_or not_configured manager) _ h in
      let (found, e1, h2) = >>=-eq-ok (find_connection t connections id buffer) _ h1 in
      subst (LeadsTo target (some id)) (same found h2) (
        connections,
        ok_or_ok not_configured manager connections e,
        (find_connection_iff t connections id buffer found).0 e1,
      )
    where
      same :
          (found : ℕ)
          → ◌≡◌ {A = Result Reply Forward} (ok (to_tunnel found)) (ok f)
          → to_tunnel found ≡ f
      same found x = cc

  LeadsTo-forward :
      (target : RouteTarget) (id : Option Text) (f : Forward)
      → LeadsTo target id f
      → forward t manager target buffer id ≡ ok f
  LeadsTo-forward target none (to_address address) l = ap (λ a. ok (to_address a)) l
  LeadsTo-forward target none (to_tunnel connection) l = absurd l
  LeadsTo-forward target (some id) (to_address address) l = absurd l
  LeadsTo-forward target (some id) (to_tunnel connection) (connections, e, passed) =
      rw e (rw ((find_connection_iff t connections id buffer connection).1 passed) refl)

  route_request-IsServed :
      (f : Forward)
      → is_empty buffer ≡ false
      → route_request t challenges manager registry peer buffer ≡ ok f
      → IsServed f
  unfolding route_request
  route_request-IsServed f nonempty h =
      let (host, e1, h1) = >>=-eq-ok (ok_or no_host (extract_host_from_request t _)) _ h in
      let (u2, e2, h2) = >>=-eq-ok (continue (acme challenges host _)) _ h1 in
      let (target, e3, h3) =
        >>=-eq-ok (map_err (λ _. not_found) (lookup_route registry (http_host host))) _ h2 in
      let (u4, e4, h4) = >>=-eq-ok (ensure (is_ip_allowed target peer) denied) _ h3 in
      record {
        host = host;
        target = target;
        nonempty = nonempty;
        has_host = ok_or_ok no_host _ host e1;
        no_challenge = continue_ok _ u2 e2;
        routed = map_err_ok (λ _. not_found) _ target e3;
        allowed = ensure_ok _ denied e4;
        leads = forward-LeadsTo target _ f h4;
      }

  IsServed-route_request :
      (f : Forward) → IsServed f → route_request t challenges manager registry peer buffer ≡ ok f
  unfolding route_request
  IsServed-route_request f s =
      rw s.has_host
        (rw s.no_challenge (rw s.routed (rw s.allowed (LeadsTo-forward s.target _ f s.leads))))

  -- The HTTP server forwards a request exactly if it names a host in a Host header, is not answered as an
  -- ACME challenge, and its host has a route whose filter allows the peer; and either the target is no
  -- tunnel, and the request goes to the target's address, or it is a tunnel, and the request goes to its
  -- connection and presents what that connection's authentication asks for.
  pub handle_http_connection_iff :
      (f : Forward)
      → (handle_http_connection t challenges manager registry peer buffer ≡ ok f) ↔ IsServed f
  unfolding handle_http_connection
  handle_http_connection_iff f = elim (Bool-cases (is_empty buffer)) [
    | inl empty ↦ (
      λ h. absurd (refused (rw (empty, handle_http_connection) at h)),
      λ s. absurd (clash (sym empty ∙ s.nonempty)),
    )
    | inr nonempty ↦ (
      λ h. route_request-IsServed f nonempty (rw (nonempty, handle_http_connection) at h),
      λ s. rw (nonempty, handle_http_connection) (IsServed-route_request f s),
    )
  ]
    where
      refused : ◌≡◌ {A = Result Reply Forward} (err closed) (ok f) → ⊥
      refused x = cc

      clash : true ≡ false → ⊥
      clash x = cc
