-- ===== src/Replica.antt =====
-- src/replication/sync.rs: the tables of the replication, and what a change writes to the table of
-- backends. The statements succeed.
use Prim.Native.String.{◌++◌ as append}
use edgeproxy.Prelude.{
  ℕ, ◌^◌, String, List, [], Option, none, some, if◌then◌else◌, ltb, lookup, insert, string_key,
  number_key,
}
use edgeproxy.Clock.{HlcTimestamp}
use edgeproxy.Changes.{Change, insert_row, update_row, delete_row}
use edgeproxy.Database.{Value, null, integer, text, BackendRow}

-- `serde_json`: what the code asks of it. An `i64` is its 64-bit pattern.
pub record Json : Type 1 where
  pub Document : Type 0
  pub from_str : String → Option Document
  pub field : Document → String → Option Document
  pub as_str : Document → Option String
  pub as_i64 : Document → Option ℕ

pub record LogRow : Type 0 where
  pub change : Change
  pub applied_at : ℕ

-- The tables; `table_pk`, `node_id`, `change_id` and `id` are their keys.
pub record ReplicaDb : Type 0 where
  pub lww : List (String × HlcTimestamp)
  pub versions : List (String × ℕ)
  pub log : List (ℕ × LogRow)
  pub backends : List (String × BackendRow)

abbrev pub empty_db : ReplicaDb
empty_db = record { lww = []; versions = []; log = []; backends = [] }

-- `format!("{}:{}", table, pk)`.
unfoldable pub key_of : String → String → String
key_of table pk = append (append table ":") pk

-- A row of `__replication_lww` as `query_row(…).ok()` gives it: an INTEGER that is negative as an
-- `i64` cannot be read as a `u64`.
unfoldable pub read_timestamp : Option HlcTimestamp → Option HlcTimestamp
read_timestamp none = none
read_timestamp (some t) = if ltb t.wall_time (2 ^ 63) then some t else none

module _ (json : Json) where
  unfoldable pub str_field : json.Document → String → Option String
  str_field doc name = elim (json.field doc name) [ none ↦ none | some v ↦ json.as_str v ]

  unfoldable pub integer_or : json.Document → String → ℕ → Value
  integer_or doc name n = elim (json.field doc name) [
    | none ↦ integer n
    | some v ↦ elim (json.as_i64 v) [ none ↦ integer n | some i ↦ integer i ]
  ]

  unfoldable pub text_or : json.Document → String → String → Value
  text_or doc name t = elim (str_field doc name) [ none ↦ text t | some s ↦ text s ]

  unfoldable pub row_of : String → json.Document → BackendRow
  row_of pk doc = record {
    id = text pk;
    app = text_or doc "app" "";
    region = text_or doc "region" "us";
    country = elim (str_field doc "country") [ none ↦ null | some s ↦ text s ];
    wg_ip = text_or doc "wg_ip" "";
    port = integer_or doc "port" 0;
    healthy = integer_or doc "healthy" 1;
    weight = integer_or doc "weight" 2;
    soft_limit = integer_or doc "soft_limit" 100;
    hard_limit = integer_or doc "hard_limit" 150;
    deleted = integer 0;
  }

  unfoldable pub delete_backend : String → List (String × BackendRow) → List (String × BackendRow)
  delete_backend pk rows = elim (lookup pk rows) [
    | none ↦ rows
    | some row ↦ insert pk (record row { deleted = integer 1 }) rows
  ]

  unfoldable pub write_backend :
      Change → List (String × BackendRow) → Option (List (String × BackendRow))
  write_backend c rows = elim (json.from_str c.data_text) [
    | none ↦ none
    | some doc ↦ some (insert c.pk (row_of c.pk doc) rows)
  ]

  -- The rows after the change; none if its data is no JSON.
  unfoldable pub apply_backend_change :
      Change → List (String × BackendRow) → Option (List (String × BackendRow))
  unfolding write_backend delete_backend
  apply_backend_change c rows = elim c.kind [
    | insert_row ↦ write_backend c rows
    | update_row ↦ write_backend c rows
    | delete_row ↦ some (delete_backend c.pk rows)
  ]
