-- ===== src/Domain.antt =====
-- src/domain: the entities and value objects that every component shares.
pub mod Region
mod Examples
use edgeproxy.Prelude.{ℕ, Bool, String, Option}
use edgeproxy.Net.{IpAddr}
use Region.{RegionCode}

-- src/domain/entities.rs. A `u8`, `u16` or `u32` is a number in its range.
pub record Backend : Type 0 where
  pub id : String
  pub app : String
  pub region : RegionCode
  pub country : String
  pub wg_ip : String
  pub port : ℕ
  pub healthy : Bool
  pub weight : ℕ
  pub soft_limit : ℕ
  pub hard_limit : ℕ

-- `Instant`s are numbers of nanoseconds.
pub record Binding : Type 0 where
  pub backend_id : String
  pub created_at : ℕ
  pub last_seen : ℕ

unfoldable pub new_binding : String → ℕ → Binding
new_binding backend_id now = record { backend_id = backend_id; created_at = now; last_seen = now }

unfoldable pub touch : ℕ → Binding → Binding
touch now b = record b { last_seen = now }

pub record GeoInfo : Type 0 where
  pub country : String
  pub region : RegionCode

-- The port of src/domain/ports/geo_resolver.rs, by its one operation.
abbrev pub GeoResolver : Type 0
GeoResolver = IpAddr → Option GeoInfo

-- `ClientKey` holds the client's address alone, and compares as it does.
abbrev pub ClientKey : Type 0
ClientKey = IpAddr
