-- ===== src/Transport.antt =====
-- src/replication/transport.rs: the messages of src/replication/types.rs and their bytes on the
-- wire. A stream is the list of its bytes. `bincode` is the interface Wire.
pub mod Service
pub mod Sample
pub mod Framing
pub mod Delivery
mod Examples
use edgeproxy.Prelude.{
  ℕ, zero, suc, ◌+◌, ◌*◌, ◌/◌, ◌%◌, ◌^◌, ◌≡◌, Bool, true, false, String, List, [], ◌∷◌, ◌++◌,
  Option, none, some, if◌then◌else◌, ltb, length, u32_mod,
}
use edgeproxy.Changes.{Change, ChangeSet, Hashing, verify}

pub data Message : Type 0 where
  broadcast : ChangeSet → Message
  sync_request : ℕ → Option String → Message
  sync_response : List ChangeSet → Message
  ack : String → ℕ → Message
  ping pong : Message

-- `bincode::serialize` and `bincode::deserialize` of messages; none is an error.
pub record Wire : Type 0 where
  pub serialize : Message → Option (List ℕ)
  pub deserialize : List ℕ → Option Message

-- What `bincode` documents: what was written is read back.
pub record WireLaws (w : Wire) : Type 0 where
  pub reads_back :
      (m : Message) (bytes : List ℕ) → w.serialize m ≡ some bytes → w.deserialize bytes ≡ some m

-- `u32::to_be_bytes`.
unfoldable pub to_be_bytes : ℕ → List ℕ
to_be_bytes n = n / 2 ^ 24 % 256 ∷ n / 2 ^ 16 % 256 ∷ n / 2 ^ 8 % 256 ∷ n % 256 ∷ []

-- `u32::from_be_bytes` of the four bytes.
unfoldable pub decode_length : ℕ → ℕ → ℕ → ℕ → ℕ
decode_length a b c d = a * 2 ^ 24 + b * 2 ^ 16 + c * 2 ^ 8 + d

-- The length prefix is `data.len() as u32`.
unfoldable pub frame : List ℕ → List ℕ
unfolding to_be_bytes
frame bytes = to_be_bytes (length bytes % u32_mod) ++ bytes

module _ (w : Wire) where
  unfoldable pub encode_message : Message → Option (List ℕ)
  encode_message m = elim (w.serialize m) [ none ↦ none | some bytes ↦ some (frame bytes) ]

  unfoldable pub decode_message : List ℕ → Option Message
  decode_message bytes = w.deserialize bytes

unfoldable pub validate_broadcast : Hashing → ChangeSet → Bool
validate_broadcast h c = verify h c

unfoldable pub create_broadcast : ChangeSet → Message
create_broadcast c = Message.broadcast c

unfoldable pub create_sync_request : ℕ → Option String → Message
create_sync_request from_seq table = sync_request from_seq table

unfoldable pub create_sync_response : List ChangeSet → Message
create_sync_response cs = sync_response cs

unfoldable pub extract_broadcast : Message → Option ChangeSet
extract_broadcast (broadcast c) = some c
extract_broadcast _ = none

unfoldable pub extract_sync_request : Message → Option (ℕ × Option String)
extract_sync_request (sync_request from_seq table) = some (from_seq, table)
extract_sync_request _ = none

unfoldable pub extract_sync_response : Message → Option (List ChangeSet)
extract_sync_response (sync_response cs) = some cs
extract_sync_response _ = none

unfoldable pub is_broadcast : Message → Bool
is_broadcast (broadcast c) = true
is_broadcast _ = false

unfoldable pub is_sync_request : Message → Bool
is_sync_request (sync_request from_seq table) = true
is_sync_request _ = false

unfoldable pub is_sync_response : Message → Bool
is_sync_response (sync_response cs) = true
is_sync_response _ = false

unfoldable pub message_type_name : Message → String
message_type_name (broadcast c) = "Broadcast"
message_type_name (sync_request from_seq table) = "SyncRequest"
message_type_name (sync_response cs) = "SyncResponse"
message_type_name (ack source seq) = "Ack"
message_type_name ping = "Ping"
message_type_name pong = "Pong"

unfoldable pub validate_sync_request : ℕ → Bool
validate_sync_request from_seq = true

unfoldable pub count_sync_response_changesets : Message → ℕ
count_sync_response_changesets (sync_response cs) = length cs
count_sync_response_changesets _ = 0

unfoldable pub count_broadcast_changes : Message → ℕ
count_broadcast_changes (broadcast c) = length c.changes
count_broadcast_changes _ = 0

unfoldable pub get_broadcast_seq : Message → Option ℕ
get_broadcast_seq (broadcast c) = some c.seq
get_broadcast_seq _ = none

unfoldable pub get_sync_request_from_seq : Message → Option ℕ
get_sync_request_from_seq (sync_request from_seq table) = some from_seq
get_sync_request_from_seq _ = none

-- `read_exact`: the first bytes of a stream, or none if it ends before; what follows is not read.
unfoldable pub read_exact : ℕ → List ℕ → Option (List ℕ)
read_exact zero bytes = some []
read_exact (suc n) [] = none
read_exact (suc n) (b ∷ bytes) = elim (read_exact n bytes) [ none ↦ none | some bs ↦ some (b ∷ bs) ]

-- A length prefix, and the bytes that follow it.
unfoldable pub read_length : List ℕ → Option (ℕ × List ℕ)
read_length (a ∷ b ∷ c ∷ d ∷ rest) = some (decode_length a b c d, rest)
read_length _ = none

abbrev pub max_message : ℕ
max_message = 10 * 1024 * 1024

module _ (w : Wire) where
  unfoldable pub read_data : ℕ × List ℕ → Option Message
  read_data (len, rest) = elim (read_exact len rest) [
    | none ↦ none
    | some taken ↦ w.deserialize taken
  ]

  -- The task of a stream: the message that it reports, if any.
  unfoldable pub read_stream : List ℕ → Option Message
  unfolding read_data
  read_stream bytes = elim (read_length bytes) [
    | none ↦ none
    | some prefix ↦ if ltb max_message prefix.0 then none else read_data prefix
  ]
