-- ===== src/Agent/Flushing.antt =====
-- src/replication/agent.rs: what a flush brings to the peers.
use edgeproxy.Prelude.{
  ℕ, ◌≡◌, true, false, Bool, some, List, [], String, length, inc64, map, retain, All,
}
use edgeproxy.Changes.{Hashing, ChangeSet, new_changeset}
use edgeproxy.Sync
use edgeproxy.Sync.{returns, blocks}
use edgeproxy.Transport.{Message, Wire}
use edgeproxy.Transport.Service.{PeerConnection, Link, broadcast, handle_stream, peers}
use edgeproxy.Transport.Delivery.{takes, reported}
use edgeproxy.Agent.{ReplicationAgent, flush}

-- The set that is sent holds what is pending.
abbrev pub outgoing : Hashing → ReplicationAgent → ChangeSet
outgoing h a = new_changeset h a.sync.node_id (inc64 a.sync.sequence) a.sync.pending_changes

-- What a flush brings to the peers, where the channel of events takes one more and where it is full.
abbrev pub Brought :
    Hashing → Wire → (PeerConnection → Link) → ReplicationAgent → List ℕ → String → Bool → Type 0
Brought h w link a bytes from true =
    let done = flush h w link a in
    (done.ends ≡ returns (some (outgoing h a)))
    × (map (λ s. s.0) done.streams ≡ retain (takes link) (peers a.transport))
    × All
        (λ s.
          handle_stream w from s.1
          ≡ reported from (Message.broadcast (outgoing h a)) (length bytes))
        done.streams
Brought h w link a bytes from false =
    let done = flush h w link a in (done.ends ≡ blocks (outgoing h a)) × (done.streams ≡ [])
