-- ===== src/Database.antt =====
-- The SQLite values and rows that the repository reads and the replication writes. An INTEGER is
-- read as an `i64` and stands here for its 64-bit pattern.
use edgeproxy.Prelude.{ℕ, String, Option, none, some}

pub data Value : Type 0 where
  null : Value
  integer : ℕ → Value
  text : String → Value

-- `row.get::<_, String>(…)` and `row.get::<_, i64>(…)`: a value of another type is an error.
unfoldable pub get_text : Value → Option String
get_text (text s) = some s
get_text _ = none

unfoldable pub get_integer : Value → Option ℕ
get_integer (integer n) = some n
get_integer _ = none

-- A row of the table `backends`.
pub record BackendRow : Type 0 where
  pub id : Value
  pub app : Value
  pub region : Value
  pub country : Value
  pub wg_ip : Value
  pub port : Value
  pub healthy : Value
  pub weight : Value
  pub soft_limit : Value
  pub hard_limit : Value
  pub deleted : Value
