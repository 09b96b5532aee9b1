-- ===== src/Agent/Examples.antt =====
-- Runs of the agent, and its theorems at a concrete node.
use edgeproxy.Prelude.{
  ℕ, zero, suc, ◌≡◌, refl, true, false, List, [], ◌∷◌, some, length, string_key,
}
use edgeproxy.Net.{SocketAddr, localhost}
use edgeproxy.Changes.{Change, insert_row, ChangeSet, Hashing}
use edgeproxy.Replica.{empty_db}
use edgeproxy.Sync
use edgeproxy.Sync.{new_service, blocks, returns, SyncEvent, broadcast_ready, persist_version}
use edgeproxy.Transport.{Message, Wire}
use edgeproxy.Transport.Service.{PeerConnection, Link, new_transport}
use edgeproxy.Transport.Sample.{one_message}
use edgeproxy.Agent.{
  ReplicationAgent, default_config, new_config, new_agent, refused, missing_node_id,
  missing_cluster_name, flush, flush_round, record_backend_change, channel_has_room, stop,
  is_running, with_cluster_name,
}
use edgeproxy.Agent.Hanging.{Call, records, flushes, rounds, stops, call, sets_sent}
use edgeproxy.Agent.Flushing.{outgoing}

refused_configs :
    (new_agent default_config empty_db ≡ refused missing_node_id)
    × (new_agent (with_cluster_name "" (new_config "a")) empty_db ≡ refused missing_cluster_name)
unfolding new_agent new_config with_cluster_name
refused_configs = (refl, refl)

abbrev counting : Hashing
counting = record {
  Bytes = ℕ;
  serialize = λ cs. some (length cs);
  hash = λ n. n;
  no_bytes = 0;
  hash_text = λ t. 7;
}

abbrev new_row : Change
new_row = record {
  id = 1;
  table = "backends";
  pk = "x";
  kind = insert_row;
  data_text = "{}";
  timestamp = record { wall_time = 10; counter = 0; node_hash = 7 };
  origin = "a";
}

abbrev here_addr : SocketAddr
here_addr = record { ip = localhost; port = 4002 }

-- A node with one change pending and one peer.
abbrev node : ReplicationAgent
node = record {
  config = record default_config { node_id = "a" };
  node_id = "a";
  members = [];
  gossip_shutdown = false;
  sync = record (new_service "a" empty_db) { pending_changes = new_row ∷ [] };
  transport = record (new_transport "a") {
    peers_map = ("b", record { node_id = "b"; addr = here_addr }) ∷ [];
  };
  events = [];
  receiver_taken = false;
  shutdown = false;
}

abbrev links : PeerConnection → Link
links p = record { alive = true; opens = true; writes = true; answer = [] }

abbrev sent_set : ChangeSet
sent_set = outgoing counting node

abbrev content : List ℕ
content = 7 ∷ 8 ∷ 9 ∷ []

abbrev wire : Wire
wire = one_message (Message.broadcast sent_set) content

abbrev repeated : ℕ → List SyncEvent
repeated zero = []
repeated (suc n) = broadcast_ready sent_set ∷ repeated n

-- The agent after 1024 sets that it flushed.
abbrev full_node : ReplicationAgent
full_node = record node { sync = record node.sync { events = repeated 1024 } }

flush_hangs :
    let done = flush counting wire links full_node in
    (done.ends ≡ blocks sent_set) × (done.streams ≡ []) × (done.agent.sync.pending_changes ≡ [])
unfolding flush channel_has_room Sync.flush persist_version
flush_hangs = (refl, refl, refl)

abbrev day : List Call
day =
    flushes links
    ∷ records (λ t. 7) 2 20 "x" insert_row "{}"
    ∷ rounds links
    ∷ stops
    ∷ rounds links
    ∷ []

two_sets_sent : sets_sent counting wire day node ≡ 2
unfolding sets_sent call flush flush_round channel_has_room Sync.flush Sync.record_change
    record_backend_change stop persist_version new_service
two_sets_sent = refl

stopped : is_running (stop node) ≡ false
unfolding is_running stop
stopped = refl
