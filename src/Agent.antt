-- ===== src/Agent.antt =====
-- src/replication/config.rs and src/replication/agent.rs: the configuration of a node, and the agent
-- that ties the sync service, the gossip and the transport together. The rounds of its two loops are
-- functions; channels of events are the lists of what was sent.
pub mod Flushing
pub mod Hanging
mod Examples
use edgeproxy.Prelude.{
  ℕ, ◌*◌, Bool, true, false, not, String, List, [], ◌∷◌, ◌++◌, Option, none, some, if◌then◌else◌,
  ltb, length, map, retain, Duration, string_key, ◌==◌, ◌&&◌,
}
use edgeproxy.Net.{SocketAddr, v4}
use edgeproxy.Changes.{Change, ChangeKind, ChangeSet, Hashing}
use edgeproxy.Replica.{Json, ReplicaDb}
use edgeproxy.Sync
use edgeproxy.Sync.{
  FlushEnd, returns, blocks, event_capacity, SyncService, ApplyResult, new_service, init_db,
}
use edgeproxy.Gossip
use edgeproxy.Gossip.{Member, Members}
use edgeproxy.Transport.{Wire}
use edgeproxy.Transport.Service
use edgeproxy.Transport.Service.{
  TransportService, PeerConnection, Link, new_transport, broadcast_changeset, get_peer,
}

pub record ReplicationConfig : Type 0 where
  pub node_id : String
  pub gossip_addr : SocketAddr
  pub transport_addr : SocketAddr
  pub bootstrap_peers : List String
  pub db_path : String
  pub cluster_name : String
  pub gossip_interval : Duration
  pub sync_interval : Duration
  pub max_pending_changes : ℕ
  pub broadcast_rate_limit : ℕ
  pub tls_enabled : Bool

abbrev pub from_millis : ℕ → Duration
from_millis ms = ms * 1_000_000

abbrev pub default_config : ReplicationConfig
default_config = record {
  node_id = "";
  gossip_addr = record { ip = v4 0; port = 4001 };
  transport_addr = record { ip = v4 0; port = 4002 };
  bootstrap_peers = [];
  db_path = "state.db";
  cluster_name = "edgeproxy";
  gossip_interval = from_millis 500;
  sync_interval = from_millis 100;
  max_pending_changes = 1000;
  broadcast_rate_limit = 10 * 1024 * 1024;
  tls_enabled = true;
}

unfoldable pub new_config : String → ReplicationConfig
new_config node_id = record default_config { node_id = node_id }

-- The setters, which the builder of the agent has too.
unfoldable pub with_gossip_addr : SocketAddr → ReplicationConfig → ReplicationConfig
with_gossip_addr addr c = record c { gossip_addr = addr }

unfoldable pub with_transport_addr : SocketAddr → ReplicationConfig → ReplicationConfig
with_transport_addr addr c = record c { transport_addr = addr }

unfoldable pub with_bootstrap_peers : List String → ReplicationConfig → ReplicationConfig
with_bootstrap_peers peers c = record c { bootstrap_peers = peers }

unfoldable pub with_db_path : String → ReplicationConfig → ReplicationConfig
with_db_path path c = record c { db_path = path }

unfoldable pub with_cluster_name : String → ReplicationConfig → ReplicationConfig
with_cluster_name name c = record c { cluster_name = name }

pub data ConfigError : Type 0 where
  missing_node_id missing_cluster_name : ConfigError

abbrev empty_text : String
empty_text = ""

-- none is `Ok(())`.
unfoldable pub validate : ReplicationConfig → Option ConfigError
validate c =
    if c.node_id == empty_text
    then some missing_node_id
    else if c.cluster_name == empty_text
    then some missing_cluster_name
    else none

pub data ReplicationEvent : Type 0 where
  cluster_joined : ℕ → ReplicationEvent
  peer_joined peer_left : String → ReplicationEvent
  change_applied : Change → ReplicationEvent
  error : String → ReplicationEvent

pub record ReplicationAgent : Type 0 where
  pub config : ReplicationConfig
  pub node_id : String
  pub members : Members
  pub gossip_shutdown : Bool
  pub sync : SyncService
  pub transport : TransportService
  pub events : List ReplicationEvent
  pub receiver_taken : Bool
  pub shutdown : Bool

pub data Created : Type 0 where
  created : ReplicationAgent → Created
  refused : ConfigError → Created

-- `db` holds the tables at `config.db_path`.
unfoldable pub new_agent : ReplicationConfig → ReplicaDb → Created
unfolding validate
new_agent config db = elim (validate config) [
  | some e ↦ refused e
  | none ↦ created (record {
    config = config;
    node_id = config.node_id;
    members = [];
    gossip_shutdown = false;
    sync = new_service config.node_id db;
    transport = new_transport config.node_id;
    events = [];
    receiver_taken = false;
    shutdown = false;
  })
]

unfoldable pub take_event_rx : ReplicationAgent → ReplicationAgent × Bool
take_event_rx a = (record a { receiver_taken = true }, not a.receiver_taken)

unfoldable pub all_members : ReplicationAgent → List Member
all_members a = map (λ e. e.1) a.members

unfoldable pub alive_members : ReplicationAgent → List Member
alive_members a = retain (λ m. Gossip.is_alive m.state) (map (λ e. e.1) a.members)

unfoldable pub is_running : ReplicationAgent → Bool
is_running a = not a.shutdown

-- Whether the sockets of the transport and of the gossip could be bound are arguments.
unfoldable pub start : Bool → Bool → ReplicationAgent → ReplicationAgent × Bool
unfolding alive_members
start transport_binds gossip_binds a =
    let (s, fine) = init_db a.sync in
    let b = record a { sync = s } in
    let c = record b { transport = record b.transport { started = true } } in
    let n = length (alive_members c) in
    if not fine
    then (b, false)
    else if not transport_binds
    then (b, false)
    else if not gossip_binds
    then (c, false)
    else (record c { events = c.events ++ cluster_joined n ∷ [] }, true)

unfoldable pub stop : ReplicationAgent → ReplicationAgent
stop a = record a {
  shutdown = true;
  gossip_shutdown = true;
  transport = Service.shutdown a.transport;
}

unfoldable pub record_backend_change :
    (String → ℕ) → ℕ → ℕ → String → ChangeKind → String → ReplicationAgent → ReplicationAgent
record_backend_change hash id now pk kind row a = record a {
  sync = (Sync.record_change hash id now a.sync "backends" pk kind row).0;
}

-- What a flush leaves, how it ends and what it sends.
pub record Flush : Type 0 where
  pub agent : ReplicationAgent
  pub ends : FlushEnd
  pub streams : List (PeerConnection × List ℕ)

-- The channel of the sync service's events takes one more: the agent keeps its reader and never reads, so
-- all that were sent are in it.
unfoldable pub channel_has_room : ReplicationAgent → Bool
channel_has_room a = ltb (length a.sync.events) event_capacity

module _ (h : Hashing) (w : Wire) where
  unfoldable pub flush : (PeerConnection → Link) → ReplicationAgent → Flush
  unfolding channel_has_room
  flush link a =
      let (s, e) = Sync.flush h (channel_has_room a) a.sync in
      let b = record a { sync = s } in
      elim e [
        | returns none ↦ record { agent = b; ends = returns none; streams = [] }
        | returns (some c) ↦ record {
          agent = b;
          ends = returns (some c);
          streams = (broadcast_changeset w link c b.transport).1;
        }
        | blocks c ↦ record { agent = b; ends = blocks c; streams = [] }
      ]

  -- One round of the loop that flushes, and whether the loop comes to another one.
  unfoldable pub flush_round : (PeerConnection → Link) → ReplicationAgent → ReplicationAgent × Bool
  unfolding flush
  flush_round link a =
      let done = flush link a in
      let goes_on : Bool = elim done.ends [ returns c ↦ true | blocks c ↦ false ] in
      if a.shutdown then (a, false) else (done.agent, goes_on)

-- One round of the loop of events: the alive members that it reports as not connected; it changes
-- nothing.
unfoldable pub event_round : ReplicationAgent → List String
unfolding alive_members
event_round a =
    if a.shutdown
    then []
    else retain
        (λ id.
          (elim (get_peer a.transport id) [ none ↦ true | some _ ↦ false ]) && not (id == "self"))
        (map (λ m. m.node_id) (alive_members a))

-- The events of the changes are told to a reader that makes room for each. The program does not call it.
unfoldable pub apply_changeset :
    Hashing → Json → ℕ → ChangeSet → ReplicationAgent → ReplicationAgent × ApplyResult
apply_changeset h json now c a =
    let (s, r) = Sync.apply_changeset json h now a.sync c in (record a { sync = s }, r)
