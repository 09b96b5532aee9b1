-- ===== src/Proxy.antt =====
-- src/application/proxy_service.rs: which backend serves a client, and what is remembered of it.
-- The repository is what it answers during a call (src/domain/ports/backend_repository.rs), the
-- bindings and metrics are the DashMap adapters; time is an argument.
pub mod Affinity
pub mod Locality
mod Examples
use edgeproxy.Prelude.{
  ℕ, ◌≡◌, refl, Bool, true, false, String, List, [], ◌∷◌, Option, none, some, if◌then◌else◌,
}
use edgeproxy.Float.{F64}
use edgeproxy.Net.{IpAddr}
use edgeproxy.Domain.{GeoResolver, Backend, Binding, GeoInfo, new_binding}
use edgeproxy.Domain.Region.{RegionCode}
use edgeproxy.Repository.{BackendRepository}
use edgeproxy.Bindings.{Bindings, get, set, drop, touch_key}
use edgeproxy.Metrics.{Metrics, get_connection_count, increment_connections, decrement_connections}
use edgeproxy.Metrics
use edgeproxy.Balancer.{pick_backend}

pub record ProxyService : Type 0 where
  pub backend_repo : BackendRepository
  pub binding_repo : Bindings
  pub geo_resolver : Option GeoResolver
  pub metrics : Metrics
  pub local_region : RegionCode

-- The backend that a binding names, if it is there and healthy.
unfoldable pub healthy_backend : BackendRepository → String → Option Backend
healthy_backend r id = elim (r.get_by_id id) [
  | none ↦ none
  | some b ↦ if b.healthy then some b else none
]

unfoldable pub resolve_geo : ProxyService → IpAddr → Option GeoInfo
resolve_geo s ip = elim s.geo_resolver [ none ↦ none | some resolve ↦ resolve ip ]

-- The end of a call: the client is bound to the backend that was picked, if any.
unfoldable pub bind_to : ProxyService → ℕ → IpAddr → Option Backend → ProxyService × Option Backend
bind_to s now ip none = (s, none)
bind_to s now ip (some b) =
    (record s { binding_repo = set ip (new_binding b.id now) s.binding_repo }, some b)

module _ (f : F64) where
  unfoldable pub choose : ProxyService → Option GeoInfo → List Backend → Option Backend
  choose s geo [] = none
  choose s geo (b ∷ bs) =
      pick_backend f s.local_region geo (get_connection_count s.metrics) (b ∷ bs)

  -- The part of a call that follows a missing or stale binding.
  unfoldable pub assign : ProxyService → ℕ → IpAddr → Option GeoInfo → ProxyService × Option Backend
  unfolding choose bind_to
  assign s now ip geo = bind_to s now ip (choose s geo s.backend_repo.get_healthy)

  -- The part of a call that follows a binding: `found` is its backend, if that is healthy.
  unfoldable pub follow :
      ProxyService → ℕ → IpAddr → Option GeoInfo → Option Backend → ProxyService × Option Backend
  follow s now ip geo (some b) =
      (record s { binding_repo = touch_key now ip s.binding_repo }, some b)
  follow s now ip geo none =
      assign (record s { binding_repo = drop ip (touch_key now ip s.binding_repo) }) now ip geo

  unfoldable pub resolve_backend_with_geo :
      ProxyService → ℕ → IpAddr → Option GeoInfo → ProxyService × Option Backend
  unfolding follow
  resolve_backend_with_geo s now ip geo = elim (get ip s.binding_repo) [
    | none ↦ assign s now ip geo
    | some binding ↦ follow s now ip geo (healthy_backend s.backend_repo binding.backend_id)
  ]

  unfoldable pub resolve_backend : ProxyService → ℕ → IpAddr → ProxyService × Option Backend
  unfolding follow
  resolve_backend s now ip = elim (get ip s.binding_repo) [
    | none ↦ assign s now ip (resolve_geo s ip)
    | some binding ↦
        follow s now ip (resolve_geo s ip) (healthy_backend s.backend_repo binding.backend_id)
  ]

unfoldable pub clear_binding : ProxyService → IpAddr → ProxyService
clear_binding s ip = record s { binding_repo = drop ip s.binding_repo }

unfoldable pub record_connection_start : ProxyService → String → ProxyService
record_connection_start s id = record s { metrics = increment_connections id s.metrics }

unfoldable pub record_connection_end : ℕ → ProxyService → String → ProxyService
record_connection_end failures s id = record s {
  metrics = decrement_connections failures id s.metrics;
}

unfoldable pub record_rtt : ProxyService → String → ℕ → ProxyService
record_rtt s id rtt_ms = record s { metrics = Metrics.record_rtt id rtt_ms s.metrics }

unfoldable pub count_of : ProxyService → String → ℕ
count_of s id = get_connection_count s.metrics id
