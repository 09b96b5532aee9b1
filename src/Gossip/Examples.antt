-- ===== src/Gossip/Examples.antt =====
-- Runs of the gossip, and its theorems at concrete tables of members.
use edgeproxy.Prelude.{
  ◌≡◌, refl, ◌+◌, ℕ, zero, suc, Option, String, List, [], ◌∷◌, none, some, if◌then◌else◌, lookup,
  insert, string_key, from_secs,
}
use edgeproxy.Net.{SocketAddr, localhost}
use edgeproxy.Gossip.{
  member_list, create_join, GossipAction, send, Member, dead, Peer, ping, join, Members,
  contains_key, process_message, member_of, joined, peers_of, GossipMessage, failure_round,
  check_member_failures, is_late, bury, burials, burial,
}
use edgeproxy.Gossip.Service.{
  handle_message, new_gossip, GossipService, Turn, arrives, pings, fails, stops, turn, run_loop,
  execute_actions, is_free, act_if_free, act, perform, resume, reads,
}
use edgeproxy.Gossip.Handshake.{heard, handshake}
use edgeproxy.Gossip.Joining.{told, joins, joins_once}

abbrev here_addr : SocketAddr
here_addr = record { ip = localhost; port = 4001 }

abbrev peer_named : String → Peer
peer_named id = record {
  peer_id = id;
  peer_gossip_addr = here_addr;
  peer_transport_addr = here_addr;
  peer_incarnation = 0;
}

-- A format for a few messages: 0 is a join of n2, 1 is its ping, any other byte is no message.
abbrev read_byte : List ℕ → Option GossipMessage
read_byte (zero ∷ bytes) = some (join "n2" here_addr here_addr)
read_byte (suc zero ∷ bytes) = some (ping (peer_named "n2"))
read_byte bytes = none

abbrev write_byte : GossipMessage → Option (List ℕ)
write_byte message = some (7 ∷ [])

abbrev history : List Turn
history =
    arrives 0 (0 ∷ []) here_addr
    ∷ pings 3
    ∷ fails (from_secs 40)
    ∷ arrives (from_secs 41) (9 ∷ []) here_addr
    ∷ arrives (from_secs 42) (1 ∷ []) here_addr
    ∷ reads
    ∷ stops
    ∷ arrives (from_secs 43) (0 ∷ []) here_addr
    ∷ []

abbrev after_history : GossipService
after_history = (run_loop write_byte read_byte history (new_gossip "n1" here_addr here_addr [])).0

joins_once_example :
    told "n2" after_history.events + joins "n2" after_history.waiting
    ≡ (if contains_key "n2" after_history.members then 1 else 0)
joins_once_example = joins_once write_byte read_byte "n2" "n1" here_addr here_addr [] history

n2_joined_once : told "n2" after_history.events ≡ 1
unfolding run_loop is_free turn act_if_free act perform resume handle_message execute_actions
    new_gossip process_message member_of contains_key joined peers_of failure_round
    check_member_failures is_late bury burials burial lookup insert
n2_joined_once = refl

-- A service that was shut down takes no packet any more.
down_is_deaf :
    (run_loop write_byte read_byte
      (stops ∷ arrives 0 (0 ∷ []) here_addr ∷ [])
      (new_gossip "n1" here_addr here_addr [])).0.members
    ≡ []
unfolding run_loop is_free turn act_if_free act handle_message perform new_gossip process_message
    execute_actions joined member_of peers_of contains_key lookup insert
down_is_deaf = refl

-- With 1024 events in the channel the loop waits to tell of a node that joins, until one is read.
abbrev full : GossipService
full = record (new_gossip "n1" here_addr here_addr []) { unread = 1024 }

n2_waits :
    let arrived = (run_loop write_byte read_byte (arrives 0 (0 ∷ []) here_addr ∷ []) full).0 in
    let read = (run_loop write_byte read_byte (reads ∷ []) arrived).0 in
    (told "n2" arrived.events ≡ 0) × (told "n2" read.events ≡ 1) × (read.unread ≡ 1024)
unfolding run_loop is_free turn act_if_free act perform resume handle_message execute_actions
    new_gossip process_message member_of contains_key joined peers_of lookup insert
n2_waits = (refl, refl, refl)

abbrev two_members : Members
two_members =
    ("n2", member_of 0 (peer_named "n2")) ∷ ("n3", member_of (from_secs 35) (peer_named "n3")) ∷ []

n2_is_buried :
    (check_member_failures (from_secs 40) (from_secs 30) two_members).1
    ≡ burial ("n2", member_of 0 (peer_named "n2"))
unfolding check_member_failures is_late bury burials burial member_of
n2_is_buried = refl

abbrev buried : Member
buried = record {
  node_id = "n2";
  gossip_addr = here_addr;
  transport_addr = here_addr;
  state = dead;
  last_seen = 0;
  incarnation = 5;
}

abbrev one_buried : Members
one_buried = ("n2", buried) ∷ []

buried_found : lookup "n2" one_buried ≡ some buried
unfolding lookup
buried_found = refl

handshake_example :
    let asked =
      process_message 1 (create_join (peer_named "n1")) here_addr two_members (peer_named "n0") in
    let answer = member_list (peers_of asked.0) in
    let told = process_message 2 answer here_addr [] (peer_named "n1") in
    ((others : List GossipAction) × (asked.1.actions ≡ send here_addr answer ∷ others))
    × (lookup "n3" told.0
        ≡ (if string_key.same "n3" "n1" then none else heard 2 (lookup "n3" two_members)))
unfolding member_of lookup
handshake_example =
    handshake 1 2 here_addr here_addr (peer_named "n1") (peer_named "n0") two_members "n3"
      (refl, (refl, tt)) (refl, (refl, tt))

-- A node that is pinged answers, stores the other one and tells of it.
pinged :
    (handle_message write_byte 5
      (ping (peer_named "n2"))
      here_addr
      (new_gossip "n1" here_addr here_addr [])).1
    ≡ (here_addr, 7 ∷ []) ∷ []
unfolding handle_message perform execute_actions new_gossip process_message joined contains_key
    lookup
pinged = refl
