-- ===== src/Gossip/Service.antt =====
-- src/replication/gossip.rs: the service around the functions: its table of members, the packets that
-- it sends and the events that it emits. `serialize` is `bincode`; a message that it refuses is not
-- sent. Sending a packet does not fail.
use edgeproxy.Prelude.{
  ◌+◌, ◌-◌, ltb, ◌&&◌, ℕ, Bool, true, false, not, String, List, [], ◌∷◌, ◌++◌, Option, none, some,
  if◌then◌else◌, lookup, retain, map, string_key,
}
use edgeproxy.Net.{SocketAddr}
use edgeproxy.Gossip.{
  is_alive, Member, Members, Peer, GossipMessage, GossipEvent, GossipAction, send, emit, no_action,
  ProcessResult, process_message, failure_round, select_ping_target, nobody, target, out_of_range,
  create_ping, create_join,
}

unfoldable pub empty_result : ProcessResult
empty_result = record { actions = []; member_discovered = false }

unfoldable pub send_result : SocketAddr → GossipMessage → ProcessResult
send_result to message = record { actions = send to message ∷ []; member_discovered = false }

unfoldable pub with_action : GossipAction → ProcessResult → ProcessResult
with_action a r = record r { actions = r.actions ++ a ∷ [] }

unfoldable pub with_member_discovered : ProcessResult → ProcessResult
with_member_discovered r = record r { member_discovered = true }

-- `local` is the node itself: its id and addresses of the configuration, and incarnation 0. `events` are
-- those that the channel has taken, of which `unread` ones are still in it; `waiting` are the actions
-- that the loop has left, the first of which waits for room in the channel.
pub record GossipService : Type 0 where
  pub local : Peer
  pub bootstrap_peers : List String
  pub members : Members
  pub events : List GossipEvent
  pub unread : ℕ
  pub waiting : List GossipAction
  pub receiver_taken : Bool
  pub is_down : Bool

unfoldable pub new_gossip : String → SocketAddr → SocketAddr → List String → GossipService
new_gossip node_id gossip_addr transport_addr bootstrap_peers = record {
  local = record {
    peer_id = node_id;
    peer_gossip_addr = gossip_addr;
    peer_transport_addr = transport_addr;
    peer_incarnation = 0;
  };
  bootstrap_peers = bootstrap_peers;
  members = [];
  events = [];
  unread = 0;
  waiting = [];
  receiver_taken = false;
  is_down = false;
}

unfoldable pub take_receiver : GossipService → GossipService × Bool
take_receiver s = (record s { receiver_taken = true }, not s.receiver_taken)

unfoldable pub member_values : GossipService → List Member
member_values s = map (λ e. e.1) s.members

unfoldable pub alive_values : GossipService → List Member
alive_values s = retain (λ m. is_alive m.state) (map (λ e. e.1) s.members)

unfoldable pub get_member : String → GossipService → Option Member
get_member id s = lookup id s.members

unfoldable pub stop_gossip : GossipService → GossipService
stop_gossip s = record s { is_down = true }

abbrev pub Packet : Type 0
Packet = SocketAddr × List ℕ

unfoldable pub is_free : List GossipAction → Bool
is_free [] = true
is_free (a ∷ as') = false

-- What the channel of events holds: `mpsc::channel(1024)`.
abbrev pub gossip_capacity : ℕ
gossip_capacity = 1024

-- What comes of a list of actions: the packets sent and the events that the channel took, in their order,
-- how many events are in it, and the actions left when it is full.
pub record Executed : Type 0 where
  pub packets : List Packet
  pub emitted : List GossipEvent
  pub in_channel : ℕ
  pub left : List GossipAction

-- What the loop of `start` does next; `stops` when another task shuts the service down, `reads` when the
-- reader of the events takes one.
pub data Turn : Type 0 where
  arrives : ℕ → List ℕ → SocketAddr → Turn
  pings : ℕ → Turn
  fails : ℕ → Turn
  stops : Turn
  reads : Turn

module _ (serialize : GossipMessage → Option (List ℕ)) where
  unfoldable pub packet_of : SocketAddr → GossipMessage → List Packet
  packet_of to message = elim (serialize message) [ none ↦ [] | some bytes ↦ (to, bytes) ∷ [] ]

  -- `send` on the channel waits while it is full.
  unfoldable pub execute_actions : ℕ → List GossipAction → Executed
  unfolding packet_of
  execute_actions unread [] = record { packets = []; emitted = []; in_channel = unread; left = [] }
  execute_actions unread (send to message ∷ as') =
      let rest = execute_actions unread as' in
      record rest { packets = packet_of to message ++ rest.packets }
  execute_actions unread (emit event ∷ as') =
      let rest = execute_actions (unread + 1) as' in
      if ltb unread gossip_capacity
      then record rest { emitted = event ∷ rest.emitted }
      else record { packets = []; emitted = []; in_channel = unread; left = emit event ∷ as' }
  execute_actions unread (no_action ∷ as') = execute_actions unread as'

  -- The table is written, then the actions are executed as far as the channel allows.
  unfoldable pub perform : Members → List GossipAction → GossipService → GossipService × List Packet
  unfolding execute_actions
  perform members actions s =
      let done = execute_actions s.unread actions in
      (
        record s {
          members = members;
          events = s.events ++ done.emitted;
          unread = done.in_channel;
          waiting = done.left;
        },
        done.packets,
      )

  unfoldable pub handle_message :
      ℕ → GossipMessage → SocketAddr → GossipService → GossipService × List Packet
  unfolding perform
  handle_message now message src s =
      let (members, result) = process_message now message src s.members s.local in
      perform members result.actions s

  -- The joins that a start sends to the bootstrap peers whose addresses can be read.
  unfoldable pub join_packets : (String → Option SocketAddr) → Peer → List String → List Packet
  unfolding packet_of create_join
  join_packets parse local [] = []
  join_packets parse local (peer ∷ peers) = elim (parse peer) [
    | none ↦ join_packets parse local peers
    | some addr ↦ packet_of addr (create_join local) ++ join_packets parse local peers
  ]

  -- A round of the gossip timer.
  unfoldable pub ping_round : ℕ → GossipService → List Packet
  unfolding packet_of create_ping
  ping_round random s = elim (select_ping_target random s.members) [
    | nobody ↦ []
    | out_of_range ↦ []
    | target addr ↦ packet_of addr (create_ping s.local)
  ]

  -- A round of the failure timer.
  unfoldable pub death_round : ℕ → GossipService → GossipService × List Packet
  unfolding perform
  death_round now s =
      let (members, actions) = failure_round now s.members in perform members actions s

  -- The reader takes an event, if there is one, and the loop goes on with what it has left.
  unfoldable pub resume : GossipService → GossipService × List Packet
  unfolding perform
  resume s = perform s.members s.waiting (record s { unread = s.unread - 1 })

  module _ (deserialize : List ℕ → Option GossipMessage) where
    -- A branch of the loop's `select!`.
    unfoldable pub act : Turn → GossipService → GossipService × List Packet
    unfolding handle_message ping_round death_round
    act (arrives now bytes src) s = elim (deserialize bytes) [
      | none ↦ (s, [])
      | some message ↦ handle_message now message src s
    ]
    act (pings random) s = (s, ping_round random s)
    act (fails now) s = death_round now s
    act stops s = (s, [])
    act reads s = (s, [])

    -- While the loop waits for room in the channel it takes no branch.
    unfoldable pub act_if_free :
        List GossipAction → Turn → GossipService → GossipService × List Packet
    unfolding act
    act_if_free [] t s = act t s
    act_if_free (a ∷ as') t s = (s, [])

    unfoldable pub turn : Turn → GossipService → GossipService × List Packet
    unfolding act_if_free stop_gossip resume
    turn stops s = (stop_gossip s, [])
    turn reads s = resume s
    turn (arrives now bytes src) s = act_if_free s.waiting (arrives now bytes src) s
    turn (pings random) s = act_if_free s.waiting (pings random) s
    turn (fails now) s = act_if_free s.waiting (fails now) s

    -- The loop, which ends when it comes to its beginning and finds the service shut down, with all
    -- packets that it sends.
    unfoldable pub run_loop : List Turn → GossipService → GossipService × List Packet
    unfolding turn is_free
    run_loop [] s = (s, [])
    run_loop (t ∷ ts) s =
        let (u, packets) = turn t s in
        let (v, more) = run_loop ts u in
        if s.is_down && is_free s.waiting then (s, []) else (v, packets ++ more)
