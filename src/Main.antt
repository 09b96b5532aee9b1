-- ===== src/Main.antt =====
-- src/main.rs: how the program is put together from its settings. What the process finds outside is
-- an argument. A task that is spawned is the server that it runs; a server that fails later is only
-- logged, but for the TCP server.
pub mod Starting
mod Examples
use edgeproxy.Prelude.{Bool, true, false, String, List, [], Option, none, some, if◌then◌else◌, map}
use edgeproxy.Net.{IpAddr, SocketAddr}
use edgeproxy.Domain.{GeoResolver, GeoInfo}
use edgeproxy.Domain.Region.{from_str}
use edgeproxy.Repository.{SqliteBackendRepository, new_repository, repository_of}
use edgeproxy.Bindings.{new_bindings}
use edgeproxy.Proxy.{ProxyService}
use edgeproxy.Geo.{Reader, resolver_of, resolve}
use edgeproxy.Replica.{ReplicaDb}
use edgeproxy.Agent.{
  ReplicationConfig, ReplicationAgent, ConfigError, Created, created, refused, new_agent, start,
}
use edgeproxy.Discovery.{ApiServer, new_server}
use edgeproxy.Dns.{DnsServer, new_dns_server}
use edgeproxy.Server.{TcpServer, new_tcp_server}
use edgeproxy.Server.Tls.{Rustls, from_pem_files, self_signed, TlsServer, new_tls_server}
use edgeproxy.Settings.{
  Config, replication_config_of, TlsSource, pem_files, own_signature, tls_source, tls_listen,
}

-- The address parser, the start of a new UUID, the tables at the replication's path, whether its
-- sockets can be bound, whether the TCP server can listen at an address, and the readers of the GeoIP databases.
pub record Outside : Type 0 where
  pub parse : String → Option SocketAddr
  pub unique : String
  pub db : ReplicaDb
  pub transport_binds : Bool
  pub gossip_binds : Bool
  pub tcp_binds : String → Bool
  pub geoip_file : String → Option Reader
  pub geoip_embedded : Option Reader

pub data MainError : Type 0 where
  bad_address : MainError
  bad_replication : ConfigError → MainError
  bad_certificate : MainError
  no_listener : MainError

-- The replication, if it is enabled and no error ends the program; an agent whose start fails is kept
-- as the start leaves it.
pub data Replication : Type 0 where
  disabled : Replication
  enabled : ReplicationAgent → Replication
  failed : MainError → Replication

unfoldable pub start_agent : Outside → ReplicationConfig → Replication
unfolding new_agent start
start_agent w config = elim (new_agent config w.db) [
  | refused e ↦ failed (bad_replication e)
  | created a ↦ enabled (start w.transport_binds w.gossip_binds a).0
]

unfoldable pub replication_of : Outside → Config → Replication
unfolding start_agent
replication_of w cfg =
    let agent : Replication = elim (replication_config_of w.parse w.unique cfg) [
      | none ↦ failed bad_address
      | some config ↦ start_agent w config
    ] in
    if cfg.replication_enabled then agent else disabled

unfoldable pub geo_resolver_of : Outside → Config → Option GeoResolver
geo_resolver_of w cfg =
    let found : Option Reader = elim cfg.geoip_path [
      | none ↦ w.geoip_embedded
      | some path ↦ w.geoip_file path
    ] in
    elim (resolver_of found) [ none ↦ none | some g ↦ some (resolve g) ]

-- The proxy service as it is made: the first load of the backends is a task of its own.
unfoldable pub proxy_service_of : Outside → Config → ProxyService
unfolding geo_resolver_of
proxy_service_of w cfg = record {
  backend_repo = repository_of new_repository;
  binding_repo = new_bindings;
  geo_resolver = geo_resolver_of w cfg;
  metrics = [];
  local_region = from_str cfg.region;
}

unfoldable pub api_server_of : Config → Option ApiServer
api_server_of cfg =
    if cfg.api_enabled then some (new_server cfg.api_listen_addr cfg.heartbeat_ttl_secs) else none

unfoldable pub dns_server_of : Outside → Config → Option DnsServer
unfolding geo_resolver_of proxy_service_of
dns_server_of w cfg =
    if cfg.dns_enabled
    then some (
        new_dns_server cfg.dns_listen_addr (proxy_service_of w cfg) (geo_resolver_of w cfg)
          cfg.dns_domain)
    else none

module _ (r : Rustls) where
  unfoldable pub certificate_of : Config → Option r.Acceptor
  certificate_of cfg = elim (tls_source cfg) [
    | pem_files cert key ↦ from_pem_files r cert key
    | own_signature domain ↦ self_signed r domain
  ]

  -- What runs when the TCP server is started.
  pub record Program : Type 0 where
    pub replication : Replication
    pub api : Option ApiServer
    pub dns : Option DnsServer
    pub tls : Option (TlsServer × r.Acceptor)
    pub tcp : TcpServer

  pub data Started : Type 0 where
    ended : MainError → Started
    serving : Program → Started

  -- The TLS server, if it is enabled, or none for an error.
  unfoldable pub tls_server_of : Outside → Config → Option (Option (TlsServer × r.Acceptor))
  unfolding certificate_of geo_resolver_of proxy_service_of
  tls_server_of w cfg =
      let server : Option (Option (TlsServer × r.Acceptor)) = elim (certificate_of cfg) [
        | none ↦ none
        | some acceptor ↦ some (
            some (
              new_tls_server (proxy_service_of w cfg) (tls_listen cfg) (geo_resolver_of w cfg),
              acceptor,
            ))
      ] in
      if cfg.tls_enabled then server else some none

  unfoldable pub serve : Outside → Config → Replication → Started
  unfolding api_server_of dns_server_of tls_server_of geo_resolver_of proxy_service_of
  serve w cfg replication = elim (tls_server_of w cfg) [
    | none ↦ ended bad_certificate
    | some tls ↦
        if w.tcp_binds cfg.listen_addr
        then serving (record {
          replication = replication;
          api = api_server_of cfg;
          dns = dns_server_of w cfg;
          tls = tls;
          tcp = new_tcp_server (proxy_service_of w cfg) cfg.listen_addr (geo_resolver_of w cfg);
        })
        else ended no_listener
  ]

  unfoldable pub main : Outside → Config → Started
  unfolding replication_of serve
  main w cfg = elim (replication_of w cfg) [
    | failed e ↦ ended e
    | disabled ↦ serve w cfg disabled
    | enabled agent ↦ serve w cfg (enabled agent)
  ]
