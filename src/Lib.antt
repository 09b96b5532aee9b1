-- ===== src/Lib.antt =====
-- Verification of edgeproxy, an edge TCP proxy that binds each client to a backend and replicates the
-- table of backends between its points of presence.
--
-- Parts and how they interact. A listener (src/adapters/inbound: TCP, TLS, DNS) asks the proxy
-- service (src/application/proxy_service.rs) for the backend of a client. The service follows the
-- client's binding, if its backend is still known and healthy, or lets the load balancer choose among
-- the healthy backends and binds the client to the choice. It uses four ports (src/domain/ports): the
-- backend repository, the binding repository, the metrics store and the geo resolver. Around it stand
-- the circuit breaker, the rate limiter, the connection pool, the health checker, the shutdown
-- controller and the configuration watcher (src/infrastructure), which the program exports and which
-- keep their own state. The replication (src/replication) is to write the table of backends that the
-- SQLite repository reads: an agent ties together the sync service, the gossip and the transport.
--
-- Files and what they model (f of the source is f here, a method takes its object and gives the new
-- one back):
--   Prelude       shared names, keyed lists for HashMap and DashMap, machine words, durations
--   Net           IpAddr and SocketAddr of std::net; an address is its number
--   Float         f64 as an interface with its laws, and whole numbers as an instance
--   Domain        src/domain/entities.rs, src/domain/value_objects.rs
--   Balancer      src/domain/services/load_balancer.rs
--   Breaker       src/infrastructure/circuit_breaker.rs
--   Limiter       src/infrastructure/rate_limiter.rs
--   Pool          src/infrastructure/connection_pool.rs
--   Database      the SQLite values and rows that pass between the program and its database
--   Repository    src/domain/ports/backend_repository.rs,
--                 src/adapters/outbound/sqlite_backend_repo.rs
--   Bindings      src/adapters/outbound/dashmap_binding_repo.rs
--   Metrics       src/adapters/outbound/dashmap_metrics_store.rs
--   Proxy         src/application/proxy_service.rs
--   Clock         the hybrid logical clock of src/replication/types.rs
--   Changes       changes and change sets of src/replication/types.rs
--   Versions      the version vector of src/replication/sync.rs
--   Replica       the tables of src/replication/sync.rs and the rows that changes write
--   Sync          the sync service of src/replication/sync.rs; serde_json, bincode and crc32fast are the
--                 interfaces Json and Hashing
--   Transport     src/replication/transport.rs and the messages of types.rs; bincode is the interface
--                 Wire, and what QUIC answers is the record Link
--   Agent         src/replication/agent.rs and src/replication/config.rs
--   Gossip        src/replication/gossip.rs
--   Health        src/infrastructure/health_checker.rs
--   Discovery     src/adapters/inbound/api_server.rs: the registry and its handlers
--   Server        src/adapters/inbound/tcp_server.rs; Server/Tls is tls_server.rs
--   Dns           src/adapters/inbound/dns_server.rs
--   Shutdown      src/infrastructure/shutdown.rs
--   Watcher       src/infrastructure/config_watcher.rs
--   Prometheus    src/adapters/outbound/prometheus_metrics_store.rs
--   Postgres      src/adapters/outbound/postgres_backend_repo.rs
--   Geo           src/adapters/outbound/maxmind_geo_resolver.rs
--   Settings      src/config.rs, and what src/main.rs makes of it
--   Main          src/main.rs: the adapters and servers that the settings put together
--
-- A file in the directory of a part proves something of that part and is named for it; the Examples
-- hold tests and the instances of the theorems at concrete inputs.
--
-- Conventions. The time that the code reads (Instant::now, SystemTime::now) is the argument `now` of a
-- call; durations and instants are in nanoseconds where the code keeps an Instant, in milliseconds or
-- microseconds where it keeps those. Unsigned words wrap as in a release build (inc32, inc64, dec64),
-- saturating_sub and duration_since stop at 0. A call runs as one step, so the properties speak of
-- calls one after another; a spurious failure of compare_exchange_weak is an argument, and every
-- theorem about such a loop holds for every number of them. Loops are structural recursions on the
-- lists they walk, or on that number. Fuel is left to the functions that take a text apart or write a
-- numeral: it is the number of bytes, of which each round takes one (split_commas, trim_dots,
-- parse_digits), or the twenty digits that a u64 has at most (display). An f64 operation is a field
-- of the interface F64, with the documented behaviour of IEEE 754 and of the casts as the named laws
-- F64Laws; whole numbers with an infinity satisfy them. Third-party code (the MaxMind reader, SQLite, TCP) is
-- an argument: what it answers is a parameter of the call. A channel of events takes 1024 of them, and
-- a send waits while it is full: the loop of the gossip and the flushes have that in their models; the
-- change sets applied and the transport tell their events to a reader that makes room for each.
--
-- Not modelled: logging; the timers and tasks that repeat a modelled call, but for the loop of the
-- gossip, and the loops that accept connections; the bytes that a proxied connection copies; the
-- protocols of third parties (QUIC, TLS, DNS, HTTP), whose answers are arguments, and SQL statements
-- that fail; interleavings inside one call, but for the waiter of the shutdown and the connections of
-- the TCP server, whose steps others may come between.
pub mod Prelude
pub mod Breaker
pub mod Net
pub mod Float
pub mod Limiter
pub mod Domain
pub mod Balancer
pub mod Database
pub mod Repository
pub mod Bindings
pub mod Metrics
pub mod Proxy
pub mod Pool
pub mod Clock
pub mod Changes
pub mod Versions
pub mod Replica
pub mod Sync
pub mod Gossip
pub mod Health
pub mod Discovery
pub mod Transport
pub mod Agent
pub mod Server
pub mod Dns
pub mod Shutdown
pub mod Watcher
pub mod Prometheus
pub mod Postgres
pub mod Settings
pub mod Main
pub mod Geo
