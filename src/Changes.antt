-- ===== src/Changes.antt =====
-- src/replication/types.rs: changes and the sets of them that nodes send to each other. A NodeId is
-- its text. `checksum` stands for `crc32fast::hash` over the bytes of `bincode::serialize`, and
-- `hash` for `crc32fast::hash` over the bytes of a text.
use edgeproxy.Prelude.{ℕ, Bool, String, List, Option, none, some, nat_beq}
use edgeproxy.Clock.{HlcTimestamp, now_timestamp, before}

pub data ChangeKind : Type 0 where
  insert_row update_row delete_row : ChangeKind

pub record Change : Type 0 where
  pub id : ℕ
  pub table : String
  pub pk : String
  pub kind : ChangeKind
  pub data_text : String
  pub timestamp : HlcTimestamp
  pub origin : String

-- `rand_id()` is the argument `id`.
unfoldable pub new_change :
    (String → ℕ) → ℕ → ℕ → String → String → ChangeKind → String → String → Change
new_change hash id now table pk kind data_text node_id = record {
  id = id;
  table = table;
  pk = pk;
  kind = kind;
  data_text = data_text;
  timestamp = now_timestamp now (hash node_id);
  origin = node_id;
}

unfoldable pub wins_over : Change → Change → Bool
wins_over c d = before d.timestamp c.timestamp

pub record ChangeSet : Type 0 where
  pub source : String
  pub seq : ℕ
  pub changes : List Change
  pub checksum : ℕ

-- What `bincode` and `crc32fast` are used for.
pub record Hashing : Type 1 where
  pub Bytes : Type 0
  pub serialize : List Change → Option Bytes
  pub hash : Bytes → ℕ
  pub no_bytes : Bytes
  pub hash_text : String → ℕ

module _ (h : Hashing) where
  unfoldable pub compute_checksum : List Change → ℕ
  compute_checksum changes = h.hash (elim (h.serialize changes) [ none ↦ h.no_bytes | some b ↦ b ])

  unfoldable pub new_changeset : String → ℕ → List Change → ChangeSet
  new_changeset source seq changes = record {
    source = source;
    seq = seq;
    changes = changes;
    checksum = compute_checksum changes;
  }

  unfoldable pub verify : ChangeSet → Bool
  verify c = nat_beq c.checksum (compute_checksum c.changes)
