-- ===== src/Proxy/Examples.antt =====
-- Calls of the proxy service and of its adapters, and their theorems at concrete values, over whole
-- numbers for `f64`.
use edgeproxy.Prelude.{◌≡◌, refl, true, String, List, [], ◌∷◌, none, some, lookup, here, Unique}
use edgeproxy.Float.{whole, whole_laws}
use edgeproxy.Net.{IpAddr, v4, ip_key}
use edgeproxy.Database.{null, integer, text, BackendRow}
use edgeproxy.Domain.{Backend}
use edgeproxy.Domain.Region.{south_america, europe}
use edgeproxy.Repository.{SqliteBackendRepository, repository_of, repository_of-laws, find_id}
use edgeproxy.Repository.Rows.{is_live, reload, reload_without_country}
use edgeproxy.Bindings.{Bindings, get, touch_key, drop}
use edgeproxy.Metrics.{
  get_connection_count, Event, starts, ends, reports, apply_all, tally, count-apply_all,
}
use edgeproxy.Balancer.{pick_backend, scan, better, eligible, score, weighted_load, geo_tier}
use edgeproxy.Proxy.{ProxyService, resolve_backend_with_geo, assign, healthy_backend}
use edgeproxy.Proxy.Affinity.{Remembers, resolve-Remembers, resolve_twice}

abbrev saopaulo : Backend
saopaulo = record {
  id = "sa-1";
  app = "app";
  region = south_america;
  country = "BR";
  wg_ip = "10.0.0.1";
  port = 8080;
  healthy = true;
  weight = 1;
  soft_limit = 10;
  hard_limit = 100;
}

abbrev loaded : SqliteBackendRepository
loaded = record { backends = saopaulo ∷ []; version = 1 }

abbrev client : IpAddr
client = v4 7

abbrev neighbour : IpAddr
neighbour = v4 8

-- The binding of `client` is stale: its backend is gone.
abbrev service : ProxyService
service = record {
  backend_repo = repository_of loaded;
  binding_repo = (client, record { backend_id = "old"; created_at = 1; last_seen = 5 }) ∷ [];
  geo_resolver = none;
  metrics = [];
  local_region = europe;
}

rebinds : (resolve_backend_with_geo whole service 9 client none).1 ≡ some saopaulo
unfolding resolve_backend_with_geo repository_of find_id get drop touch_key lookup pick_backend scan
    better eligible score weighted_load geo_tier get_connection_count healthy_backend assign
rebinds = refl

resolve-Remembers_example :
    Remembers 9 client (resolve_backend_with_geo whole service 9 client none)
resolve-Remembers_example =
    resolve-Remembers whole_laws service 9 client none (repository_of-laws loaded)

-- The same client later, with the backend known and loaded.
abbrev busy : ProxyService
busy = record (resolve_backend_with_geo whole service 9 client none).0 {
  metrics = ("sa-1", record { current_conns = 99; last_rtt_ms = 3 }) ∷ [];
  backend_repo = repository_of loaded;
}

resolve_twice_example :
    (resolve_backend_with_geo whole busy 20 client
      (some (record { country = "FR"; region = europe }))).1
    ≡ some saopaulo
unfolding repository_of find_id
resolve_twice_example =
    resolve_twice whole_laws service busy 9 20 client none
      (some (record { country = "FR"; region = europe })) (repository_of-laws loaded) rebinds refl
      refl

-- Two bindings of which one is old, at time 100 and a time to live of 60.
abbrev bindings : Bindings
bindings =
    (client, record { backend_id = "sa-1"; created_at = 1; last_seen = 5 })
    ∷ (neighbour, record { backend_id = "sa-1"; created_at = 1; last_seen = 50 })
    ∷ []

bindings-Unique : Unique bindings
unfolding lookup
bindings-Unique = (refl, (refl, tt))

abbrev traffic : List (String × Event)
traffic = ("a", starts) ∷ ("b", starts) ∷ ("a", ends 2) ∷ ("a", ends 0) ∷ ("b", reports 7) ∷ []

count-apply_all_example : get_connection_count (apply_all traffic []) "b" ≡ 1
unfolding tally get_connection_count lookup
count-apply_all_example = count-apply_all traffic [] "b"

abbrev nowhere : BackendRow
nowhere = record {
  id = text "b1";
  app = text "app";
  region = text "us";
  country = null;
  wg_ip = text "10.0.0.9";
  port = integer 80;
  healthy = integer 1;
  weight = integer 2;
  soft_limit = integer 100;
  hard_limit = integer 150;
  deleted = integer 0;
}

reload_without_country_example : reload (nowhere ∷ []) loaded ≡ loaded
unfolding is_live
reload_without_country_example =
    reload_without_country (nowhere ∷ []) nowhere loaded (here nowhere [] refl) refl refl
