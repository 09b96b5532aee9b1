-- ===== src/Postgres.antt =====
-- src/adapters/outbound/postgres_backend_repo.rs: the repository that is to stand on PostgreSQL. As in
-- the source, nothing is read from a database: the operations change the cached backends.
pub mod Syncing
mod Examples
use edgeproxy.Prelude.{
  ℕ, ◌+◌, ◌%◌, ◌*◌, Bool, true, false, not, String, List, [], ◌∷◌, ◌++◌, Option, none, some,
  if◌then◌else◌, ◌==◌, string_key, retain, inc64, Duration, from_secs,
}
use edgeproxy.Domain.{Backend}
use edgeproxy.Repository.{BackendRepository, find_id}

pub record PostgresConfig : Type 0 where
  pub url : String
  pub max_connections : ℕ
  pub min_connections : ℕ
  pub connect_timeout : Duration
  pub query_timeout : Duration
  pub reload_interval : Duration

abbrev pub default_postgres_config : PostgresConfig
default_postgres_config = record {
  url = "postgres://localhost:5432/edgeproxy";
  max_connections = 10;
  min_connections = 2;
  connect_timeout = from_secs 5;
  query_timeout = from_secs 10;
  reload_interval = from_secs 5;
}

-- `syncing` is the version that the loop of `start_sync` counts; it starts as a copy of `version`.
pub record PostgresBackendRepository : Type 0 where
  pub config : PostgresConfig
  pub backends : List Backend
  pub version : ℕ
  pub initialized : Bool
  pub syncing : Option ℕ

unfoldable pub new_postgres : PostgresConfig → PostgresBackendRepository
new_postgres config = record {
  config = config;
  backends = [];
  version = 0;
  initialized = false;
  syncing = none;
}

unfoldable pub initialize : PostgresBackendRepository → PostgresBackendRepository
initialize r = record r { initialized = true }

unfoldable pub start_sync : PostgresBackendRepository → PostgresBackendRepository
start_sync r = record r { syncing = some r.version }

unfoldable pub load_backends : PostgresConfig → Option (List Backend)
load_backends config = some []

abbrev pub is_empty : List Backend → Bool
is_empty [] = true
is_empty (b ∷ bs) = false

-- A round of the loop. The backends loaded are none, so they differ from those cached if there are
-- any of these.
unfoldable pub sync_round : PostgresBackendRepository → PostgresBackendRepository
unfolding load_backends
sync_round r = elim r.syncing [
  | none ↦ r
  | some v ↦
      if not r.initialized
      then r
      else elim (load_backends r.config) as (λ _. PostgresBackendRepository) [
        | none ↦ r
        | some loaded ↦
            if is_empty r.backends
            then r
            else record r { backends = loaded; syncing = some (inc64 v) }
      ]
]

unfoldable pub add_backend : Backend → PostgresBackendRepository → PostgresBackendRepository
add_backend b r = record r { backends = r.backends ++ b ∷ []; version = inc64 r.version }

unfoldable pub remove_backend : String → PostgresBackendRepository → PostgresBackendRepository
remove_backend id r = record r {
  backends = retain (λ b. not (b.id == id)) r.backends;
  version = inc64 r.version;
}

-- The first backend with the identifier is changed.
unfoldable pub set_health : String → Bool → List Backend → List Backend
set_health id healthy [] = []
set_health id healthy (b ∷ bs) =
    if b.id == id then record b { healthy = healthy } ∷ bs else b ∷ set_health id healthy bs

unfoldable pub update_health : String → Bool → PostgresBackendRepository → PostgresBackendRepository
unfolding set_health
update_health id healthy r = elim (find_id id r.backends) [
  | none ↦ r
  | some _ ↦ record r { backends = set_health id healthy r.backends; version = inc64 r.version }
]

-- What it answers as the port.
unfoldable pub postgres_port : PostgresBackendRepository → BackendRepository
postgres_port r = record {
  get_all = r.backends;
  get_by_id = λ id. find_id id r.backends;
  get_healthy = retain (λ b. b.healthy) r.backends;
  get_version = r.version;
}
