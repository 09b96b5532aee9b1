-- ===== src/Main/Starting.antt =====
-- src/main.rs: when the program comes to serve.
use edgeproxy.Prelude.{
  ◌≡◌, Bool, true, false, not, ◌&&◌, ◌||◌, Option, none, some, string_key, ◌==◌, arith,
}
use edgeproxy.Agent.{
  ReplicationConfig, validate, new_agent, new_config, with_gossip_addr, with_transport_addr,
  with_bootstrap_peers, with_db_path, with_cluster_name,
}
use edgeproxy.Settings.{Config, replication_config_of, node_id_of}
use edgeproxy.Server.Tls.{Rustls}
use edgeproxy.Main.{
  Outside, Replication, disabled, enabled, failed, start_agent, replication_of, certificate_of,
  Started, ended, serving, tls_server_of, serve, main,
}

abbrev pub is_some {ℓ} : {A : Type ℓ} → Option A → Bool
is_some none = false
is_some (some a) = true

abbrev pub is_serving : (r : Rustls) → Started r → Bool
is_serving r (ended e) = false
is_serving r (serving p) = true

abbrev goes_on : Replication → Bool
goes_on (failed e) = false
goes_on disabled = true
goes_on (enabled a) = true

-- The addresses of the replication can be read, and its node and its cluster have names.
abbrev pub is_sound : Outside → Config → Bool
is_sound w cfg =
    is_some (w.parse cfg.replication_gossip_addr)
    && is_some (w.parse cfg.replication_transport_addr)
    && not (node_id_of w.unique cfg == "")
    && not (cfg.replication_cluster_name == "")

start_agent_sound :
    (w : Outside) (config : ReplicationConfig)
    → goes_on (start_agent w config)
      ≡ (not (config.node_id == "") && not (config.cluster_name == ""))
unfolding start_agent new_agent validate
start_agent_sound w config = ground arith

replication_of_sound :
    (w : Outside) (cfg : Config)
    → goes_on (replication_of w cfg) ≡ (not cfg.replication_enabled || is_sound w cfg)
unfolding replication_of replication_config_of new_config with_gossip_addr with_transport_addr
    with_bootstrap_peers with_db_path with_cluster_name start_agent new_agent validate
replication_of_sound w cfg = ground arith

-- The program comes to serve clients exactly if the replication is disabled or its addresses can be
-- read and its node and cluster have names, TLS is disabled or the certificate can be made, and the TCP
-- server can listen at its address. No failure of the sockets of the replication, of the GeoIP database
-- or of the other servers keeps it from that.
pub main-serving :
    (r : Rustls) (w : Outside) (cfg : Config)
    → is_serving r (main r w cfg) ≡ (
        (not cfg.replication_enabled || is_sound w cfg)
        && (not cfg.tls_enabled || is_some (certificate_of r cfg))
        && w.tcp_binds cfg.listen_addr)
unfolding main serve tls_server_of
main-serving r w cfg = ground (arith, replication_of_sound w cfg)
