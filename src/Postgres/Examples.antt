-- ===== src/Postgres/Examples.antt =====
-- Runs of the PostgreSQL repository, and its theorems at concrete operations.
use edgeproxy.Prelude.{◌≡◌, refl, true, false, List, [], ◌∷◌, none, some}
use edgeproxy.Float.{whole}
use edgeproxy.Net.{v4}
use edgeproxy.Domain.{Backend}
use edgeproxy.Domain.Region.{south_america, europe}
use edgeproxy.Repository.{find_id}
use edgeproxy.Proxy.{ProxyService, resolve_backend_with_geo}
use edgeproxy.Postgres.{
  PostgresBackendRepository, default_postgres_config, new_postgres, initialize, start_sync,
  sync_round, add_backend, remove_backend, update_health, postgres_port,
}
use edgeproxy.Postgres.Syncing.{
  Operation, adds, removes, updates, operate, operate_all, found_after_all, resolve-sync_round,
}

abbrev saopaulo : Backend
saopaulo = record {
  id = "sa-1";
  app = "app";
  region = south_america;
  country = "BR";
  wg_ip = "10.0.0.1";
  port = 8080;
  healthy = true;
  weight = 1;
  soft_limit = 10;
  hard_limit = 100;
}

abbrev history : List Operation
history = adds saopaulo ∷ updates "sa-1" false ∷ removes "sa-2" ∷ updates "gone" true ∷ []

found_unhealthy : found_after_all "sa-1" history none ≡ some (record saopaulo { healthy = false })
unfolding found_after_all
found_unhealthy = refl

-- Only the changes are counted.
versions : (operate_all history (new_postgres default_postgres_config)).version ≡ 3
unfolding operate_all new_postgres operate update_health find_id remove_backend add_backend
versions = refl

abbrev running : PostgresBackendRepository
running = start_sync (initialize (add_backend saopaulo (new_postgres default_postgres_config)))

abbrev service : ProxyService
service = record {
  backend_repo = postgres_port running;
  binding_repo = (v4 7, record { backend_id = "sa-1"; created_at = 1; last_seen = 5 }) ∷ [];
  geo_resolver = none;
  metrics = [];
  local_region = europe;
}

resolve-sync_round_example :
    let port = postgres_port (sync_round running) in
    ((resolve_backend_with_geo whole (record service { backend_repo = port }) 9 (v4 7) none).1
      ≡ none)
    × (port.get_version ≡ running.version)
unfolding initialize start_sync add_backend new_postgres
resolve-sync_round_example = resolve-sync_round whole running 1 9 service (v4 7) none refl refl
