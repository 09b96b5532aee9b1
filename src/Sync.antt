-- ===== src/Sync.antt =====
-- src/replication/sync.rs: local changes and the changes of peers, over a SQLite database whose
-- statements succeed. The events that the channel took are a list.
pub mod Keys
pub mod Winner
pub mod Agrees
pub mod Batch
pub mod Delivery
pub mod Latest
pub mod Seen
pub mod Saving
pub mod Restart
pub mod Outbox
pub mod Convergence
mod Examples
use edgeproxy.Prelude.{
  ℕ, ◌+◌, ◌^◌, Bool, true, false, not, String, List, [], ◌∷◌, ◌++◌, Option, none, some,
  if◌then◌else◌, ltb, inc64, lookup, insert, string_key, number_key, ◌==◌,
}
use edgeproxy.Clock.{HlcTimestamp, before}
use edgeproxy.Changes.{
  Change, ChangeKind, insert_row, update_row, delete_row, ChangeSet, Hashing, new_change,
  new_changeset, verify,
}
use edgeproxy.Versions.{VersionVector, new_versions, update, has_seen, get}
use edgeproxy.Replica.{
  Json, LogRow, ReplicaDb, empty_db, key_of, read_timestamp, str_field, integer_or, text_or, row_of,
  delete_backend, write_backend, apply_backend_change,
}
use edgeproxy.Database.{Value, null, integer, text, BackendRow}

pub data SyncEvent : Type 0 where
  change_applied : Change → SyncEvent
  broadcast_ready : ChangeSet → SyncEvent
  peer_synced : String → ℕ → SyncEvent

pub record SyncService : Type 0 where
  pub node_id : String
  pub sequence : ℕ
  pub version_vector : VersionVector
  pub pending_changes : List Change
  pub last_timestamps : List (String × HlcTimestamp)
  pub events : List SyncEvent
  pub db : ReplicaDb

unfoldable pub new_service : String → ReplicaDb → SyncService
new_service node_id db = record {
  node_id = node_id;
  sequence = 0;
  version_vector = new_versions;
  pending_changes = [];
  last_timestamps = [];
  events = [];
  db = db;
}

unfoldable pub persist_version : String → ℕ → SyncService → SyncService
persist_version node_id seq s = record s {
  db = record s.db { versions = insert node_id seq s.db.versions };
}

-- The rows of `__replication_versions`, read as `u64`s: a number that is negative as an `i64` stops it.
unfoldable pub load_versions : List (String × ℕ) → VersionVector → VersionVector × Bool
load_versions [] v = (v, true)
load_versions (e ∷ es) v =
    let rest = load_versions es (update e.0 e.1 v) in if ltb e.1 (2 ^ 63) then rest else (v, false)

-- The tables are there already, or made empty.
unfoldable pub init_db : SyncService → SyncService × Bool
init_db s =
    let (v, fine) = load_versions s.db.versions s.version_vector in
    if fine
    then (
      record s {
        version_vector = v;
        sequence = elim (lookup s.node_id v.versions) [ none ↦ s.sequence | some seq ↦ seq ];
      },
      true,
    )
    else (record s { version_vector = v }, false)

unfoldable pub record_change :
    (String → ℕ)
    → ℕ
    → ℕ
    → SyncService
    → String
    → String
    → ChangeKind
    → String
    → SyncService × Change
record_change hash id now s table pk kind data_text =
    let change = new_change hash id now table pk kind data_text s.node_id in
    (record s { pending_changes = s.pending_changes ++ change ∷ [] }, change)

-- How a flush ends: it returns, or it waits for good to tell of its set on the channel of events.
pub data FlushEnd : Type 0 where
  returns : Option ChangeSet → FlushEnd
  blocks : ChangeSet → FlushEnd

-- `mpsc::channel(1024)`.
abbrev pub event_capacity : ℕ
event_capacity = 1024

-- `takes` is whether the channel takes the event, at once or when its reader has made room in it.
unfoldable pub flush : Hashing → Bool → SyncService → SyncService × FlushEnd
unfolding persist_version
flush h takes s = elim s.pending_changes [
  | [] ↦ (s, returns none)
  | c ∷ cs ↦
      let seq = inc64 s.sequence in
      let changeset = new_changeset h s.node_id seq (c ∷ cs) in
      let t = persist_version s.node_id seq (record s {
        pending_changes = [];
        sequence = seq;
        version_vector = update s.node_id seq s.version_vector;
      }) in
      if takes
      then (
        record t { events = t.events ++ broadcast_ready changeset ∷ [] },
        returns (some changeset),
      )
      else (t, blocks changeset)
]

unfoldable pub newer : HlcTimestamp → Option HlcTimestamp → Bool
newer t none = true
newer t (some last) = before last t

unfoldable pub should_apply_change : SyncService → Change → Bool
unfolding newer read_timestamp
should_apply_change s c =
    let key = key_of c.table c.pk in
    if newer c.timestamp (lookup key s.last_timestamps)
    then newer c.timestamp (read_timestamp (lookup key s.db.lww))
    else false

pub data ApplyResult : Type 0 where
  ok : ℕ → ApplyResult
  bad_checksum : ApplyResult
  bad_data : ApplyResult

module _ (json : Json) where
  unfoldable pub apply_to_table : Change → SyncService → Option SyncService
  apply_to_table c s =
      if c.table == "backends"
      then elim (apply_backend_change json c s.db.backends) [
        | none ↦ none
        | some rows ↦ some (record s { db = record s.db { backends = rows } })
      ]
      else some s

  -- `INSERT OR IGNORE`: the row that has the identifier stays.
  unfoldable pub log_change : ℕ → Change → SyncService → SyncService
  log_change now c s = elim (lookup c.id s.db.log) [
    | none ↦ record s {
      db = record s.db { log = insert c.id (record { change = c; applied_at = now }) s.db.log };
    }
    | some _ ↦ s
  ]

  -- On an error the timestamp is written already.
  unfoldable pub apply_single_change : ℕ → SyncService → Change → SyncService × Bool
  unfolding apply_to_table log_change
  apply_single_change now s c =
      let key = key_of c.table c.pk in
      let stamped = record s { db = record s.db { lww = insert key c.timestamp s.db.lww } } in
      elim (apply_to_table c stamped) [
        | none ↦ (stamped, false)
        | some t ↦ (
          log_change now c
              (record t { last_timestamps = insert key c.timestamp t.last_timestamps }),
          true,
        )
      ]

  -- The `for` loop: the state, and how many changes were applied, or none at an error. The events are
  -- told to a reader that makes room for each.
  unfoldable pub apply_changes : ℕ → SyncService → ℕ → List Change → SyncService × Option ℕ
  unfolding apply_single_change
  apply_changes now s applied [] = (s, some applied)
  apply_changes now s applied (c ∷ cs) = elim (should_apply_change s c) [
    | false ↦ apply_changes now s applied cs
    | true ↦
        let (t, fine) = apply_single_change now s c in
        elim fine [
          | false ↦ (t, none)
          | true ↦
              apply_changes now (record t { events = t.events ++ change_applied c ∷ [] })
                (applied + 1) cs
        ]
  ]

  unfoldable pub apply_changeset : Hashing → ℕ → SyncService → ChangeSet → SyncService × ApplyResult
  unfolding persist_version
  apply_changeset h now s cs =
      if not (verify h cs)
      then (s, bad_checksum)
      else if has_seen cs.source cs.seq s.version_vector
      then (s, ok 0)
      else let (t, r) = apply_changes now s 0 cs.changes in
        elim r [
          | none ↦ (t, bad_data)
          | some n ↦ (
            persist_version cs.source cs.seq
                (record t { version_vector = update cs.source cs.seq t.version_vector }),
            ok n,
          )
        ]
