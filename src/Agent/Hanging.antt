-- ===== src/Agent/Hanging.antt =====
-- src/replication/agent.rs: how many sets an agent can flush whose events nobody reads.
use edgeproxy.Prelude.{ℕ, ◌+◌, none, some, List, [], ◌∷◌, String, if◌then◌else◌}
use edgeproxy.Changes.{ChangeKind, Hashing}
use edgeproxy.Sync
use edgeproxy.Sync.{FlushEnd, returns, blocks}
use edgeproxy.Transport.{Wire}
use edgeproxy.Transport.Service.{PeerConnection, Link}
use edgeproxy.Agent.{ReplicationAgent, record_backend_change, flush, flush_round, stop}

-- A change recorded, with the identifier and the time that it takes, a flush, a round of the loop that
-- flushes, or a stop.
pub data Call : Type 0 where
  records : (String → ℕ) → ℕ → ℕ → String → ChangeKind → String → Call
  flushes rounds : (PeerConnection → Link) → Call
  stops : Call

-- How many sets go to the peers in a flush that ends so.
abbrev pub sets_of : FlushEnd → ℕ
sets_of (returns none) = 0
sets_of (returns (some c)) = 1
sets_of (blocks c) = 0

module _ (h : Hashing) (w : Wire) where
  unfoldable pub call : Call → ReplicationAgent → ReplicationAgent × ℕ
  call (records hash id now pk kind row) a = (record_backend_change hash id now pk kind row a, 0)
  call (flushes link) a = let done = flush h w link a in (done.agent, sets_of done.ends)
  call (rounds link) a =
      ((flush_round h w link a).0, if a.shutdown then 0 else sets_of (flush h w link a).ends)
  call stops a = (stop a, 0)

  -- The sets that went out in all calls.
  unfoldable pub sets_sent : List Call → ReplicationAgent → ℕ
  sets_sent [] a = 0
  sets_sent (c ∷ cs) a = (call c a).1 + sets_sent cs (call c a).0
