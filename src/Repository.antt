-- ===== src/Repository.antt =====
-- The port src/domain/ports/backend_repository.rs and its implementation
-- src/adapters/outbound/sqlite_backend_repo.rs.
pub mod Rows
use edgeproxy.Prelude.{
  ℕ, ◌+◌, ◌%◌, ◌≡◌, refl, Bool, true, false, String, List, [], ◌∷◌, Option, none, some,
  if◌then◌else◌, ◌==◌, string_key, retain, All, arith, inc64, ◌^◌, nat_beq, not, map, ◌||◌,
}
use edgeproxy.Domain.{Backend}
use edgeproxy.Domain.Region.{from_str}

-- What a repository answers at one moment.
pub record BackendRepository : Type 0 where
  pub get_all : List Backend
  pub get_by_id : String → Option Backend
  pub get_healthy : List Backend
  pub get_version : ℕ

-- What its clients rely on.
pub record RepositoryLaws (r : BackendRepository) : Type 0 where
  pub by_id : (id : String) (b : Backend) → r.get_by_id id ≡ some b → b.id ≡ id
  pub all_healthy : All (λ (b : Backend). b.healthy ≡ true) r.get_healthy

pub record SqliteBackendRepository : Type 0 where
  pub backends : List Backend
  pub version : ℕ

unfoldable pub new_repository : SqliteBackendRepository
new_repository = record { backends = []; version = 0 }

unfoldable pub find_id : String → List Backend → Option Backend
find_id id [] = none
find_id id (b ∷ bs) = if b.id == id then some b else find_id id bs

unfoldable pub repository_of : SqliteBackendRepository → BackendRepository
repository_of s = record {
  get_all = s.backends;
  get_by_id = λ id. find_id id s.backends;
  get_healthy = retain (λ b. b.healthy) s.backends;
  get_version = s.version;
}

pub find_id-id :
    (id : String) (bs : List Backend) (b : Backend) → find_id id bs ≡ some b → b.id ≡ id
unfolding find_id
find_id-id id [] b h = cc
find_id-id id (c ∷ bs) b h = ground (arith, string_key.eq_of_same c.id id, find_id-id id bs b)

pub healthy_retained :
    (bs : List Backend) → All (λ (b : Backend). b.healthy ≡ true) (retain (λ b. b.healthy) bs)
healthy_retained [] = tt
healthy_retained (b ∷ bs) = ground (arith, healthy_retained bs)

-- The repository over SQLite keeps the port's laws, whatever it has loaded.
pub repository_of-laws : (s : SqliteBackendRepository) → RepositoryLaws (repository_of s)
unfolding repository_of
repository_of-laws s = record {
  by_id = λ id b. find_id-id id s.backends b;
  all_healthy = healthy_retained s.backends;
}
