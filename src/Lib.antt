-- ===== src/Lib.antt =====
-- The relay of localup: its control plane, its routing, the way of a request through its servers, the
-- framing of its connections, its filters and its ports.
--
-- localup lets a client behind a NAT offer a local service through a public relay. The relay accepts a
-- client's connection, reads messages from it (Codec) or frames of several streams (Mux), and hands the
-- first one to the control plane (Dispatch). That checks the client's token and domains (Admission),
-- works out the endpoints (Endpoints, Domains), registers them in the route registry (Handler, Registry),
-- gives TCP tunnels a port and a task (Ports, Tasks), keeps the connection alive (Heartbeat) and takes
-- back the routes when it ends (Clients). The servers send what arrives for a host, a server name or a
-- port to the tunnel that registered it, if the tunnel's filter lets the peer's address pass (IpFilter)
-- and the request shows what its authentication asks for (HttpAuth). An agent offers one target that
-- clients reach through the relay (Reverse, Stream).
--
--   Router/Wildcard   crates/localup-router/src/wildcard.rs: WildcardPattern::parse is `parse`, matches
--                     is `matches`, extract_parent_wildcard and could_match_wildcard keep their names.
--   Router/Registry   crates/localup-router/src/registry.rs: the two maps of RouteRegistry as association
--                     lists; register, unregister, exists and the others keep their names, `lookup_route`
--                     is lookup with its fallback to wildcards. Wildcards, Operations and Existence hold
--                     the proofs.
--   Router/Http, Tcp, Sni
--                     crates/localup-router/src/{http,tcp,sni}.rs: the routers over the registry, whose
--                     state they share. `lookup_host`, `lookup_port` and `lookup_sni` are their lookups.
--                     Router/Sni also has the parser of a ClientHello, whose slices and indices can
--                     panic; a panic is an outcome.
--   Proto/IpFilter    crates/localup-proto/src/ip_filter.rs. An address is its number; `deserialized` is
--                     what serde leaves of a filter.
--   Proto/Mux         crates/localup-proto/src/mux.rs: frames on the wire, flags as their byte, and the
--                     streams of Multiplexer. The machine's u32 arithmetic is written out.
--   Proto/Codec       crates/localup-proto/src/codec.rs: the frames of messages, generic in the message.
--   ExitNode/Ports    PortAllocator and parse_port_range of crates/localup-exit-node/src/main.rs. A panic
--                     poisons the locks, and every operation on poisoned locks panics.
--   HttpAuth          crates/localup-http-auth/src: the providers as one data type, `authenticate` with the
--                     loop over the headers, and the bytes of the responses.
--   Control/Agents, Tasks, Connections, Pending, Domains
--                     crates/localup-control/src/{agent_registry,task_tracker,connection,
--                     pending_requests,domain_provider}.rs: the registries and managers of the control
--                     plane; each operation keeps its name.
--   Control/Dispatch, Admission, Endpoints, Handler, Clients, Heartbeat, Reverse
--                     crates/localup-control/src/handler.rs: handle_connection; validate_auth_token and
--                     is_custom_domain_registered; build_endpoints and generate_subdomain;
--                     register_route and unregister_route, by kind of endpoint; `connect` and
--                     `disconnect` are handle_client_connection before and after its loop, which is
--                     `step` of Heartbeat, one event at a time; handle_agent_connection and
--                     handle_reverse_localup_request.
--   Servers/Requests, Https, Http
--                     crates/localup-server-https/src/server.rs and crates/localup-server-tcp/src/server.rs:
--                     what happens to a request up to the connection it is forwarded to.
--   Agent/Access, Stream
--                     crates/localup-agent-server/src/access_control.rs; and the two checks that a
--                     stream of a reverse tunnel passes, in the relay and in crates/localup-agent/src/agent.rs.
--   Auth/Claims       crates/localup-auth/src/jwt.rs: the claims of a token and what they allow.
--   Client/Requests, Responses, Heads, Chunks
--                     crates/localup-client/src/http_parser.rs: the incremental parsers of requests and
--                     responses; each operation keeps its name.
--   Base              tests on numbers, lists, maps, texts, results, words and UTF-8.
--
-- A text is the list of its UTF-8 bytes; the code splits texts at ASCII characters only. Maps are
-- association lists, since no property depends on the order of a hash map, and each operation is one
-- step: those of Multiplexer and PortAllocator hold their locks throughout, those of the registry, whose
-- map is concurrent, make a test and a write that another thread can come between.
--
-- Parameters stand for what is not in the repository: `from_str` for the grammar of addresses, with the
-- assumption that its numbers fit the address family; `serialize` and `deserialize` for bincode, with the
-- assumption that what was written is read; the validator of JWTs, SHA-256 and the queries of the database
-- in Admission; a domain provider with its state in Endpoints; what the connection of a client asks of
-- others, in a record, in Clients; whether a message could be sent; the store of ACME challenges in
-- Servers; `parse` for the crate httparse in Client, with the assumption that more bytes do not change what
-- it found; `is_port_available` for the answer of the operating system to each attempt to bind a port; `hash` for the standard hasher; `to_lowercase`, `trim` and
-- `decode_base64` for Unicode's case mapping, the trimming of white space and base64; the time as an
-- argument.
--
-- Four loops run on fuel. The digits of a number get one round more than its value; the search of
-- allocate_stream gets 2^32 rounds, one for each identifier;
-- decode_all gets one round more than its buffer has bytes, since a round that goes on takes four; the
-- search of extract_sni gets as many rounds as the hello has bytes, since each skips four. The theorems
-- say that the fuel of the last three is enough, and where the search of allocate_stream never ends.
--
-- Not modelled: logging and metrics; the forwarding of data once a connection is found, and the capture
-- of requests, which are network I/O, as are the transports, the TLS server and the TCP proxy; the text
-- of a Disconnect message; generate_public_url and the lists for monitoring; passwords and API tokens,
-- which wrap their libraries; the allowlist of the agent, which nothing uses; the connection of the
-- client, its metrics and its configuration; the REST API and its database; the issue of certificates; the
-- command line and the desktop application. Of the exit node's binary, the start-up.
mod Base
pub mod Proto
pub mod Router
pub mod ExitNode
pub mod HttpAuth
pub mod Control
pub mod Servers
pub mod Agent
pub mod Auth
pub mod Client
