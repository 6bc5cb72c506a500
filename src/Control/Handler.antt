-- ===== src/Control/Handler.antt =====
-- The routes of a tunnel: `register_route` and `unregister_route` of
-- crates/localup-control/src/handler.rs, over the route registry, the port allocator and the tasks. What
-- the operating system says of a port, and the hash of an identifier, are parameters; the handle of the
-- task that serves a port is what the spawner of the handler gives.
pub mod Growth
pub mod Patterns
pub mod Tcp
pub mod Freeing
pub mod Ownership
pub mod Vacancy
pub mod Claiming
pub mod Cleanup
pub mod Capture
pub mod Registering
pub mod Wellformed
use localup.Base.{
  unwrap_or, ℕ, Bool, true, false, Option, none, some, List, [], ◌∷◌, ◌++◌, eqb, if◌then◌else◌,
  ◌==◌, nat_eq, list_eq, Text, codes, Result, ok, err, map_err,
}
use localup.Proto.IpFilter.{IpFilter}
use localup.Router.Wildcard.{WildcardError, is_wildcard_pattern, parse}
use localup.Router.Registry.{
  RouteKey, tls_sni, http_host, RouteTarget, RouteError, RouteRegistry, register, register_wildcard,
  unregister, unregister_wildcard, exists, wildcard_exists, get_wildcard_target, lookup_route,
  key_eq,
}
use localup.ExitNode.Ports.{AllocateError, PortAllocator, allocate, deallocate}
use localup.Control.Tasks.{TaskTracker}
use localup.Control.Tasks
use localup.Control.Endpoints.{Protocol, tcp, tls, http, https, Endpoint, host_name}
use localup.Control.Admission.{Database, is_custom_domain_registered}

-- The fields of the handler that do not change.
pub record Handler : Type 0 where
  pub domain : Text
  pub db : Option Database
  pub tcp_proxy_spawner : Option (Text → ℕ → ℕ)

-- The shared objects that the handler changes.
pub record Shared : Type 0 where
  pub route_registry : RouteRegistry
  pub port_allocator : Option PortAllocator
  pub task_tracker : TaskTracker

-- One constructor for each error message; `port_error panics` is a panic, which ends the task of the connection
-- with the same state.
pub data RegisterError : Type 0 where
  host_required no_port_allocator : RegisterError
  domain_not_registered domain_check_failed wildcard_in_use custom_domain_in_use subdomain_taken :
      Text → RegisterError
  invalid_wildcard : Text → WildcardError → RegisterError
  route_error : RouteError → RegisterError
  port_error : AllocateError → RegisterError

abbrev pub Outcome : Type 0
Outcome = RouteRegistry × Result RegisterError (Unit {0})

-- The host, and whether it is a custom domain.
unfoldable pub host_of : Text → Option Text → Option Text → Option (Text × Bool)
host_of domain sub (some custom) = some (custom, true)
host_of domain (some sub) none = some (host_name sub domain, false)
host_of domain none none = none

abbrev pub domain_checked : Text → Result Text Bool → Result RegisterError (Unit {0})
domain_checked host (ok true) = ok tt
domain_checked host (ok false) = err (domain_not_registered host)
domain_checked host (err e) = err (domain_check_failed e)

unfoldable pub check_domain : Option Database → Bool → Text → Result RegisterError (Unit {0})
check_domain db false host = ok tt
check_domain db true host = domain_checked host (is_custom_domain_registered db host)

abbrev pub route_target : Text → Text → IpFilter → RouteTarget
route_target id metadata filter = record {
  localup_id = id;
  target_addr = codes "tunnel:" ++ id;
  metadata = some metadata;
  ip_filter = filter;
}

abbrev pub reported : RouteRegistry × Result RouteError (Unit {0}) → Outcome
reported (r, result) = (r, map_err route_error result)

-- The registry after the target that holds the place of a new route has been looked at: a target of the same
-- tunnel is removed, which gives `cleaned`, and another one is a conflict.
abbrev pub replace_own :
    Text
    → RegisterError
    → RouteRegistry
    → RouteRegistry
    → Option RouteTarget
    → Result RegisterError RouteRegistry
replace_own id conflict r cleaned none = ok r
replace_own id conflict r cleaned (some existing) =
    if existing.localup_id == id then ok cleaned else err conflict

abbrev pub to_option : {A : Type 0} → Result RouteError A → Option A
to_option (ok a) = some a
to_option (err e) = none

unfoldable pub free_wildcard : RouteRegistry → Text → Text → Result RegisterError RouteRegistry
free_wildcard r id host =
    if wildcard_exists r host
    then replace_own id (wildcard_in_use host) r (unregister_wildcard r host).0
        (get_wildcard_target r host)
    else ok r

unfoldable pub free_host :
    RouteRegistry → Text → Text → RegisterError → Result RegisterError RouteRegistry
free_host r id host conflict =
    if exists r (http_host host)
    then replace_own id conflict r (unregister r (http_host host)).0
        (to_option (lookup_route r (http_host host)))
    else ok r

unfoldable pub register_wildcard_host : RouteRegistry → Text → Text → IpFilter → Outcome
register_wildcard_host r id host filter = elim (parse host) [
  | err e ↦ (r, err (invalid_wildcard host e))
  | ok _ ↦ elim (free_wildcard r id host) [
    | err e ↦ (r, err e)
    | ok freed ↦
        reported (register_wildcard freed host (route_target id (codes "wildcard-domain") filter))
  ]
]

unfoldable pub register_host :
    RouteRegistry → Text → Text → RegisterError → Text → IpFilter → Outcome
register_host r id host conflict metadata filter = elim (free_host r id host conflict) [
  | err e ↦ (r, err e)
  | ok freed ↦ reported (register freed (http_host host) (route_target id metadata filter))
]

abbrev pub conflict_of : Bool → Option Text → Text → RegisterError
conflict_of true sub host = custom_domain_in_use host
conflict_of false sub host = subdomain_taken (unwrap_or host sub)

abbrev pub metadata_of : Bool → Text
metadata_of true = codes "custom-domain"
metadata_of false = codes "via-tunnel"

-- The route of a host that passed its check.
unfoldable pub register_checked :
    RouteRegistry → Text → Option Text → Text → Bool → IpFilter → Outcome
register_checked r id sub host custom filter =
    if is_wildcard_pattern host
    then register_wildcard_host r id host filter
    else register_host r id host (conflict_of custom sub host) (metadata_of custom) filter

unfoldable pub register_web :
    Handler → RouteRegistry → Text → Option Text → Option Text → IpFilter → Outcome
register_web h r id sub custom filter = elim (host_of h.domain sub custom) [
  | none ↦ (r, err host_required)
  | some (host, is_custom) ↦ elim (check_domain h.db is_custom host) [
    | err e ↦ (r, err e)
    | ok _ ↦ register_checked r id sub host is_custom filter
  ]
]

unfoldable pub register_pattern : RouteRegistry → Text → Text → IpFilter → Outcome
register_pattern r id pattern filter =
    if is_wildcard_pattern pattern
    then reported (register_wildcard r pattern (route_target id (codes "via-tunnel") filter))
    else reported (register r (tls_sni pattern) (route_target id (codes "via-tunnel") filter))

-- `?` in the loop: the first error ends it.
unfoldable pub register_patterns : RouteRegistry → Text → List Text → IpFilter → Outcome
register_patterns r id [] filter = (r, ok tt)
register_patterns r id (p ∷ patterns) filter =
    let (r', result) = register_pattern r id p filter in
    elim result [ err e ↦ (r', err e) | ok _ ↦ register_patterns r' id patterns filter ]

abbrev pub with_registry : Shared → Outcome → Shared × Result RegisterError (Option ℕ)
with_registry s (r, ok _) = (record s { route_registry = r }, ok none)
with_registry s (r, err e) = (record s { route_registry = r }, err e)

abbrev pub requested : ℕ → Option ℕ
requested port = if eqb port 0 then none else some port

abbrev pub spawn_proxy : Option (Text → ℕ → ℕ) → TaskTracker → Text → ℕ → TaskTracker
spawn_proxy none t id port = t
spawn_proxy (some spawner) t id port = Tasks.register t id (spawner id port)

abbrev pub spawned :
    Handler
    → Shared
    → Text
    → PortAllocator × Result AllocateError ℕ
    → Shared × Result RegisterError (Option ℕ)
spawned h s id (a, err e) = (record s { port_allocator = some a }, err (port_error e))
spawned h s id (a, ok port) = (
  record {
    route_registry = s.route_registry;
    port_allocator = some a;
    task_tracker = spawn_proxy h.tcp_proxy_spawner s.task_tracker id port;
  },
  ok (some port),
)

-- The removal of a route of HTTP, whoever holds it.
unfoldable pub unregister_host : RouteRegistry → Text → RouteRegistry
unregister_host r host =
    if is_wildcard_pattern host
    then (unregister_wildcard r host).0
    else (unregister r (http_host host)).0

unfoldable pub unregister_web : Handler → RouteRegistry → Option Text → Option Text → RouteRegistry
unregister_web h r sub custom = elim (host_of h.domain sub custom) [
  | none ↦ r
  | some (host, _) ↦ unregister_host r host
]

unfoldable pub unregister_pattern : RouteRegistry → Text → RouteRegistry
unregister_pattern r pattern =
    if is_wildcard_pattern pattern
    then (unregister_wildcard r pattern).0
    else (unregister r (tls_sni pattern)).0

unfoldable pub unregister_patterns : RouteRegistry → List Text → RouteRegistry
unregister_patterns r [] = r
unregister_patterns r (p ∷ patterns) = unregister_patterns (unregister_pattern r p) patterns

module _ (is_port_available : ℕ → ℕ → Bool) (hash : Text → ℕ) where
  unfoldable pub register_tcp :
      Handler → Shared → Text → ℕ → Option PortAllocator → Shared × Result RegisterError (Option ℕ)
  register_tcp h s id port none = (s, err no_port_allocator)
  register_tcp h s id port (some a) =
      spawned h s id (allocate is_port_available hash a id (requested port))

  unfoldable pub register_route :
      Handler → Shared → Text → Protocol → IpFilter → Shared × Result RegisterError (Option ℕ)
  register_route h s id (http sub custom) filter =
      with_registry s (register_web h s.route_registry id sub custom filter)
  register_route h s id (https sub custom) filter =
      with_registry s (register_web h s.route_registry id sub custom filter)
  register_route h s id (tcp port) filter = register_tcp h s id port s.port_allocator
  register_route h s id (tls port patterns) filter =
      with_registry s (register_patterns s.route_registry id patterns filter)

-- How the task of a connection ends early: a lock of the port allocator is poisoned.
pub data Panic : Type 0 where
  poisoned_lock : Panic

abbrev pub with_deallocated : Shared → Option PortAllocator → Shared × Result Panic (Unit {0})
with_deallocated s none = (s, err poisoned_lock)
with_deallocated s (some a) = (record s { port_allocator = some a }, ok tt)

abbrev pub deallocated : ℕ → Shared → Text → Option PortAllocator → Shared × Result Panic (Unit {0})
deallocated now s id none = (s, ok tt)
deallocated now s id (some a) = with_deallocated s (deallocate now a id)

unfoldable pub unregister_route :
    ℕ → Handler → Shared → Text → Protocol → Shared × Result Panic (Unit {0})
unregister_route now h s id (http sub custom) =
    (record s { route_registry = unregister_web h s.route_registry sub custom }, ok tt)
unregister_route now h s id (https sub custom) =
    (record s { route_registry = unregister_web h s.route_registry sub custom }, ok tt)
unregister_route now h s id (tcp port) =
    deallocated now (record s { task_tracker = Tasks.unregister s.task_tracker id }) id
      s.port_allocator
unregister_route now h s id (tls port patterns) =
    (record s { route_registry = unregister_patterns s.route_registry patterns }, ok tt)
