-- ===== src/Settings.antt =====
-- src/config.rs and src/main.rs: the settings that the environment gives, and what the program is put
-- together from by them. `env` is `std::env::var`, none for a variable that is not set or is no text;
-- `trim` is `str::trim`.
pub mod Reading
pub mod Commas
pub mod Splitting
mod Examples
use Prim.Native.String.{◌++◌ as append, slice, len}
use text.Mathlib.Text.{find?}
use edgeproxy.Prelude.{
  ℕ, zero, suc, ◌+◌, Bool, true, false, String, List, [], ◌∷◌, Option, none, some, if◌then◌else◌,
  nat_beq, ◌&&◌, ◌||◌, string_key, ◌==◌, ◌>>=◌, map, u64_mod, parse_word, Duration, from_secs,
}
use edgeproxy.Net.{SocketAddr}
use edgeproxy.Agent.{
  ReplicationConfig, new_config, with_gossip_addr, with_transport_addr, with_bootstrap_peers,
  with_db_path, with_cluster_name,
}

pub record Config : Type 0 where
  pub listen_addr : String
  pub db_path : String
  pub region : String
  pub db_reload_secs : ℕ
  pub geoip_path : Option String
  pub binding_ttl_secs : ℕ
  pub binding_gc_interval_secs : ℕ
  pub debug : Bool
  pub tls_enabled : Bool
  pub tls_cert_path : Option String
  pub tls_key_path : Option String
  pub tls_listen_addr : Option String
  pub api_enabled : Bool
  pub api_listen_addr : String
  pub heartbeat_ttl_secs : ℕ
  pub dns_enabled : Bool
  pub dns_listen_addr : String
  pub dns_domain : String
  pub replication_enabled : Bool
  pub replication_node_id : Option String
  pub replication_gossip_addr : String
  pub replication_transport_addr : String
  pub replication_bootstrap_peers : List String
  pub replication_db_path : String
  pub replication_cluster_name : String

abbrev pub default_settings : Config
default_settings = record {
  listen_addr = "0.0.0.0:8080";
  db_path = "routing.db";
  region = "sa";
  db_reload_secs = 5;
  geoip_path = none;
  binding_ttl_secs = 600;
  binding_gc_interval_secs = 60;
  debug = false;
  tls_enabled = false;
  tls_cert_path = none;
  tls_key_path = none;
  tls_listen_addr = none;
  api_enabled = false;
  api_listen_addr = "0.0.0.0:8081";
  heartbeat_ttl_secs = 60;
  dns_enabled = false;
  dns_listen_addr = "0.0.0.0:5353";
  dns_domain = "internal";
  replication_enabled = false;
  replication_node_id = none;
  replication_gossip_addr = "0.0.0.0:4001";
  replication_transport_addr = "0.0.0.0:4002";
  replication_bootstrap_peers = [];
  replication_db_path = "state.db";
  replication_cluster_name = "edgeproxy";
}

unfoldable pub text_or : Option String → String → String
text_or none default = default
text_or (some v) default = v

-- `.unwrap_or_else(…).parse().unwrap_or(n)` of a `u64`, whose default text is read as `n`.
unfoldable pub word_or : Option String → ℕ → ℕ
word_or none n = n
word_or (some v) n = elim (parse_word u64_mod v) [ none ↦ n | some k ↦ k ]

letter : String → ℕ → String → String → Bool
letter s i small large = slice s i (i + 1) == small || slice s i (i + 1) == large

-- `v == "1" || v.to_lowercase() == "true"`: no letter but these becomes one of `true` in lower case.
unfoldable pub is_true : String → Bool
unfolding letter
is_true v =
    v == "1"
    || nat_beq (len v) 4
      && letter v 0 "t" "T"
      && letter v 1 "r" "R"
      && letter v 2 "u" "U"
      && letter v 3 "e" "E"

unfoldable pub flag_of : Option String → Bool
unfolding is_true
flag_of none = false
flag_of (some v) = is_true v

-- `split(',')`; the fuel is the number of bytes, and each piece takes a comma.
unfoldable pub split_commas : ℕ → String → List String
split_commas zero s = s ∷ []
split_commas (suc fuel) s = elim (find? s ",") [
  | none ↦ s ∷ []
  | some k ↦ slice s 0 k ∷ split_commas fuel (slice s (k + 1) (len s))
]

unfoldable pub peers_of_text : (String → String) → Option String → List String
unfolding split_commas
peers_of_text trim none = []
peers_of_text trim (some v) = map trim (split_commas (len v) v)

unfoldable pub is_set : Option String → Bool
is_set none = false
is_set (some v) = true

unfoldable pub load_config : (String → String) → (String → Option String) → Config
unfolding text_or word_or flag_of peers_of_text is_set
load_config trim env = record {
  listen_addr = text_or (env "EDGEPROXY_LISTEN_ADDR") "0.0.0.0:8080";
  db_path = text_or (env "EDGEPROXY_DB_PATH") "routing.db";
  region = text_or (env "EDGEPROXY_REGION") "sa";
  db_reload_secs = word_or (env "EDGEPROXY_DB_RELOAD_SECS") 5;
  geoip_path = env "EDGEPROXY_GEOIP_PATH";
  binding_ttl_secs = word_or (env "EDGEPROXY_BINDING_TTL_SECS") 600;
  binding_gc_interval_secs = word_or (env "EDGEPROXY_BINDING_GC_INTERVAL_SECS") 60;
  debug = is_set (env "DEBUG");
  tls_enabled = flag_of (env "EDGEPROXY_TLS_ENABLED");
  tls_cert_path = env "EDGEPROXY_TLS_CERT";
  tls_key_path = env "EDGEPROXY_TLS_KEY";
  tls_listen_addr = env "EDGEPROXY_TLS_LISTEN_ADDR";
  api_enabled = flag_of (env "EDGEPROXY_API_ENABLED");
  api_listen_addr = text_or (env "EDGEPROXY_API_LISTEN_ADDR") "0.0.0.0:8081";
  heartbeat_ttl_secs = word_or (env "EDGEPROXY_HEARTBEAT_TTL_SECS") 60;
  dns_enabled = flag_of (env "EDGEPROXY_DNS_ENABLED");
  dns_listen_addr = text_or (env "EDGEPROXY_DNS_LISTEN_ADDR") "0.0.0.0:5353";
  dns_domain = text_or (env "EDGEPROXY_DNS_DOMAIN") "internal";
  replication_enabled = flag_of (env "EDGEPROXY_REPLICATION_ENABLED");
  replication_node_id = env "EDGEPROXY_REPLICATION_NODE_ID";
  replication_gossip_addr = text_or (env "EDGEPROXY_REPLICATION_GOSSIP_ADDR") "0.0.0.0:4001";
  replication_transport_addr = text_or (env "EDGEPROXY_REPLICATION_TRANSPORT_ADDR") "0.0.0.0:4002";
  replication_bootstrap_peers = peers_of_text trim (env "EDGEPROXY_REPLICATION_BOOTSTRAP_PEERS");
  replication_db_path = text_or (env "EDGEPROXY_REPLICATION_DB_PATH") "state.db";
  replication_cluster_name = text_or (env "EDGEPROXY_REPLICATION_CLUSTER_NAME") "edgeproxy";
}

-- src/main.rs. `unique` are the first eight characters of a new UUID, `parse` reads an address.
unfoldable pub node_id_of : String → Config → String
node_id_of unique cfg = text_or cfg.replication_node_id (append (append cfg.region "-") unique)

unfoldable pub replication_config_of :
    (String → Option SocketAddr) → String → Config → Option ReplicationConfig
unfolding node_id_of
replication_config_of parse unique cfg = do
  gossip ← parse cfg.replication_gossip_addr
  transport ← parse cfg.replication_transport_addr
  some (
      with_cluster_name cfg.replication_cluster_name (
        with_db_path cfg.replication_db_path (
          with_bootstrap_peers cfg.replication_bootstrap_peers (
            with_transport_addr transport
              (with_gossip_addr gossip (new_config (node_id_of unique cfg)))))))

-- Where the certificate of the TLS server comes from.
pub data TlsSource : Type 0 where
  pem_files : String → String → TlsSource
  own_signature : String → TlsSource

unfoldable pub tls_source : Config → TlsSource
tls_source cfg = elim cfg.tls_cert_path [
  | none ↦ own_signature "edgeproxy.internal"
  | some cert ↦ elim cfg.tls_key_path [
    | none ↦ own_signature "edgeproxy.internal"
    | some key ↦ pem_files cert key
  ]
]

unfoldable pub tls_listen : Config → String
tls_listen cfg = text_or cfg.tls_listen_addr "0.0.0.0:8443"
