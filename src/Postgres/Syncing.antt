-- ===== src/Postgres/Syncing.antt =====
-- src/adapters/outbound/postgres_backend_repo.rs: what the operations and the loop leave.
use edgeproxy.Prelude.{
  ℕ, ◌≡◌, refl, ap, ◌∙◌, Bool, true, not, String, List, [], ◌∷◌, ◌++◌, Option, none, some,
  if◌then◌else◌, ◌==◌, string_key, inc64, retain, arith,
}
use edgeproxy.Float.{F64}
use edgeproxy.Net.{IpAddr}
use edgeproxy.Domain.{Backend, GeoInfo, Binding}
use edgeproxy.Repository.{RepositoryLaws, find_id, find_id-id, healthy_retained}
use edgeproxy.Bindings.{get}
use edgeproxy.Proxy.{
  ProxyService, resolve_backend_with_geo, assign, follow, healthy_backend, choose, bind_to,
}
use edgeproxy.Postgres.{
  PostgresBackendRepository, PostgresConfig, new_postgres, sync_round, add_backend, remove_backend,
  update_health, set_health, postgres_port, load_backends,
}

-- The operations.
pub data Operation : Type 0 where
  adds : Backend → Operation
  removes : String → Operation
  updates : String → Bool → Operation

unfoldable pub operate : Operation → PostgresBackendRepository → PostgresBackendRepository
operate (adds b) r = add_backend b r
operate (removes id) r = remove_backend id r
operate (updates id healthy) r = update_health id healthy r

-- What an operation makes of what is found under an identifier.
abbrev pub found_after : String → Operation → Option Backend → Option Backend
found_after id (adds b) (some c) = some c
found_after id (adds b) none = if b.id == id then some b else none
found_after id (removes j) found = if j == id then none else found
found_after id (updates j healthy) none = none
found_after id (updates j healthy) (some c) =
    if j == id then some (record c { healthy = healthy }) else some c

find_id-append :
    (id : String) (bs : List Backend) (b : Backend)
    → find_id id (bs ++ b ∷ []) ≡ found_after id (adds b) (find_id id bs)
unfolding find_id
find_id-append id [] b = refl
find_id-append id (c ∷ bs) b = ground (arith, find_id-append id bs b)

find_id-retain :
    (id j : String) (bs : List Backend)
    → find_id id (retain (λ b. not (b.id == j)) bs) ≡ found_after id (removes j) (find_id id bs)
unfolding find_id
find_id-retain id j [] = ground arith
find_id-retain id j (c ∷ bs) = ground (
  arith,
  find_id-retain id j bs,
  string_key.eq_of_same c.id j,
  string_key.eq_of_same c.id id,
  string_key.eq_of_same j id,
  string_key.same_of_eq c.id j,
  string_key.same_of_eq j id,
)

find_id-set_health :
    (id j : String) (healthy : Bool) (bs : List Backend)
    → find_id id (set_health j healthy bs) ≡ found_after id (updates j healthy) (find_id id bs)
unfolding find_id set_health
find_id-set_health id j healthy [] = refl
find_id-set_health id j healthy (c ∷ bs) = ground (
  arith,
  find_id-set_health id j healthy bs,
  string_key.eq_of_same c.id j,
  string_key.eq_of_same c.id id,
  string_key.eq_of_same j id,
  string_key.same_of_eq c.id id,
  string_key.same_of_eq j id,
)

operate-found :
    (id : String) (o : Operation) (r : PostgresBackendRepository)
    → find_id id (operate o r).backends ≡ found_after id o (find_id id r.backends)
unfolding operate add_backend remove_backend update_health
operate-found id (adds b) r = find_id-append id r.backends b
operate-found id (removes j) r = find_id-retain id j r.backends
operate-found id (updates j healthy) r = updated (find_id j r.backends) refl
  where
    updated :
        (o : Option Backend)
        → find_id j r.backends ≡ o
        → find_id id
            (elim o as (λ _. PostgresBackendRepository) [
              | none ↦ r
              | some _ ↦ record r {
                backends = set_health j healthy r.backends;
                version = inc64 r.version;
              }
            ]).backends
          ≡ found_after id (updates j healthy) (find_id id r.backends)
    updated none e = ground (arith, string_key.eq_of_same j id)
    updated (some c) e = find_id-set_health id j healthy r.backends

unfoldable pub operate_all : List Operation → PostgresBackendRepository → PostgresBackendRepository
operate_all [] r = r
operate_all (o ∷ os) r = operate_all os (operate o r)

unfoldable pub found_after_all : String → List Operation → Option Backend → Option Backend
found_after_all id [] found = found
found_after_all id (o ∷ os) found = found_after_all id os (found_after id o found)

operate_all-found :
    (id : String) (os : List Operation) (r : PostgresBackendRepository)
    → find_id id (operate_all os r).backends ≡ found_after_all id os (find_id id r.backends)
unfolding operate_all found_after_all
operate_all-found id [] r = refl
operate_all-found id (o ∷ os) r =
    operate_all-found id os (operate o r) ∙ ap (found_after_all id os) (operate-found id o r)

-- After any operations on a new repository, a backend is found by its identifier as the operations
-- leave it: the first one added under the identifier since the last removal of it, with the health
-- of the last update after that. What the repository answers keeps the laws of the port.
pub operate_all-port :
    (id : String) (os : List Operation) (config : PostgresConfig)
    → let port = postgres_port (operate_all os (new_postgres config)) in
      (port.get_by_id id ≡ found_after_all id os none) × RepositoryLaws port
unfolding postgres_port new_postgres
operate_all-port id os config =
    let r = operate_all os (new_postgres config) in
    (
      operate_all-found id os (new_postgres config) ∙ unfold find_id in refl,
      record {
        by_id = λ j b. find_id-id j r.backends b;
        all_healthy = healthy_retained r.backends;
      },
    )

synced_empty :
    (v : ℕ) (r : PostgresBackendRepository)
    → r.initialized ≡ true
    → r.syncing ≡ some v
    → ((sync_round r).backends ≡ []) × ((sync_round r).version ≡ r.version)
unfolding sync_round load_backends
synced_empty v r i s = ground arith

module _ (f : F64) (now : ℕ) (ip : IpAddr) (geo : Option GeoInfo) where
  assign-none :
      (p : ProxyService) → p.backend_repo.get_healthy ≡ [] → (assign f p now ip geo).1 ≡ none
  unfolding assign choose bind_to
  assign-none p e = rw e

  follow-none :
      (p : ProxyService) (o : Option Backend)
      → o ≡ none
      → p.backend_repo.get_healthy ≡ []
      → (follow f p now ip geo o).1 ≡ none
  unfolding follow
  follow-none p none e none_healthy = assign-none _ none_healthy
  follow-none p (some b) e none_healthy = cc

  unserved :
      (p : ProxyService)
      → ((id : String) → p.backend_repo.get_by_id id ≡ none)
      → p.backend_repo.get_healthy ≡ []
      → (resolve_backend_with_geo f p now ip geo).1 ≡ none
  unfolding resolve_backend_with_geo healthy_backend
  unserved p unknown none_healthy = go (get ip p.binding_repo)
    where
      go :
          (o : Option Binding)
          → (elim o as (λ _. ProxyService × Option Backend) [
            | none ↦ assign f p now ip geo
            | some b ↦ follow f p now ip geo (healthy_backend p.backend_repo b.backend_id)
          ]).1
            ≡ none
      go none = assign-none p none_healthy
      go (some b) = follow-none p _ (rw (unknown b.backend_id, healthy_backend)) none_healthy

-- The first round of the loop of an initialized repository leaves it with no backend, whatever was
-- added: the proxy service answers every client with none, and the version of the port stays as it
-- was.
pub resolve-sync_round :
    (f : F64) (r : PostgresBackendRepository) (v now : ℕ) (p : ProxyService) (ip : IpAddr)
    (geo : Option GeoInfo)
    → r.initialized ≡ true
    → r.syncing ≡ some v
    → let port = postgres_port (sync_round r) in
      ((resolve_backend_with_geo f (record p { backend_repo = port }) now ip geo).1 ≡ none)
      × (port.get_version ≡ r.version)
resolve-sync_round f r v now p ip geo i s =
    let (empty, same) = synced_empty v r i s in
    (
      unserved f now ip geo (record p { backend_repo = postgres_port (sync_round r) })
          (λ id. unfold postgres_port in rw empty (unfold find_id in refl))
          (unfold postgres_port in rw empty),
      unfold postgres_port in same,
    )
