-- ===== src/Gossip.antt =====
-- src/replication/gossip.rs: membership by gossip. The functions return the actions to take beside the
-- new table of members; `Instant::now()` is the argument `now`, a random number an argument.
pub mod Joining
pub mod Failing
pub mod Service
pub mod Handshake
mod Examples
use edgeproxy.Prelude.{
  ℕ, zero, suc, ◌-◌, ◌%◌, Bool, true, false, not, ◌&&◌, String, List, [], ◌∷◌, ◌++◌, Option, none,
  some, if◌then◌else◌, ltb, lookup, insert, length, retain, map, Duration, from_secs, string_key,
  ◌==◌,
}
use edgeproxy.Net.{SocketAddr}

pub data MemberState : Type 0 where
  alive suspect dead : MemberState

abbrev pub is_alive : MemberState → Bool
is_alive alive = true
is_alive suspect = false
is_alive dead = false

pub record Member : Type 0 where
  pub node_id : String
  pub gossip_addr : SocketAddr
  pub transport_addr : SocketAddr
  pub state : MemberState
  pub last_seen : ℕ
  pub incarnation : ℕ

-- An entry of a list of members: the node, its two addresses and its incarnation.
pub record Peer : Type 0 where
  pub peer_id : String
  pub peer_gossip_addr : SocketAddr
  pub peer_transport_addr : SocketAddr
  pub peer_incarnation : ℕ

-- The fields of the variants `Ping` and `Ack` are those of a `Peer`.
pub data GossipMessage : Type 0 where
  ping : Peer → GossipMessage
  ack : Peer → GossipMessage
  join : String → SocketAddr → SocketAddr → GossipMessage
  member_list : List Peer → GossipMessage

pub data GossipEvent : Type 0 where
  member_joined : Member → GossipEvent
  member_left : String → GossipEvent
  member_state_changed : String → MemberState → MemberState → GossipEvent

pub data GossipAction : Type 0 where
  send : SocketAddr → GossipMessage → GossipAction
  emit : GossipEvent → GossipAction
  no_action : GossipAction

abbrev pub Members : Type 0
Members = List (String × Member)

pub record ProcessResult : Type 0 where
  pub actions : List GossipAction
  pub member_discovered : Bool

-- A node that is heard of is alive.
unfoldable pub member_of : ℕ → Peer → Member
member_of now p = record {
  node_id = p.peer_id;
  gossip_addr = p.peer_gossip_addr;
  transport_addr = p.peer_transport_addr;
  state = alive;
  last_seen = now;
  incarnation = p.peer_incarnation;
}

unfoldable pub contains_key : String → Members → Bool
contains_key id ms = elim (lookup id ms) [ none ↦ false | some _ ↦ true ]

-- The event of a node that was not in the table.
unfoldable pub joined : Bool → Member → List GossipAction
joined true m = emit (member_joined m) ∷ []
joined false m = []

-- What the values of the table say to a node that joins.
unfoldable pub peers_of : Members → List Peer
peers_of ms =
    map
      (λ e. record {
        peer_id = e.1.node_id;
        peer_gossip_addr = e.1.gossip_addr;
        peer_transport_addr = e.1.transport_addr;
        peer_incarnation = e.1.incarnation;
      })
      ms

-- The `for` loop over a list of members; the node itself is passed over.
unfoldable pub learn : ℕ → String → List Peer → Members → Members × ProcessResult
unfolding member_of contains_key joined
learn now local [] ms = (ms, record { actions = []; member_discovered = false })
learn now local (p ∷ ps) ms =
    let skipped = learn now local ps ms in
    let is_new = not (contains_key p.peer_id ms) in
    let (after, result) = learn now local ps (insert p.peer_id (member_of now p) ms) in
    if p.peer_id == local then skipped else (
      after,
      record {
        actions = joined is_new (member_of now p) ++ result.actions;
        member_discovered = if is_new then true else result.member_discovered;
      },
    )

unfoldable pub process_message :
    ℕ → GossipMessage → SocketAddr → Members → Peer → Members × ProcessResult
unfolding member_of contains_key joined peers_of
process_message now (ping p) src ms local =
    let is_new = not (contains_key p.peer_id ms) in
    (
      insert p.peer_id (member_of now p) ms,
      record {
        actions = send src (ack local) ∷ joined is_new (member_of now p);
        member_discovered = is_new;
      },
    )
process_message now (ack p) src ms local =
    let is_new = not (contains_key p.peer_id ms) in
    (
      insert p.peer_id (member_of now p) ms,
      record { actions = joined is_new (member_of now p); member_discovered = is_new },
    )
process_message now (join id gossip_addr transport_addr) src ms local =
    let p : Peer = record {
      peer_id = id;
      peer_gossip_addr = gossip_addr;
      peer_transport_addr = transport_addr;
      peer_incarnation = 0;
    } in
    let is_new = not (contains_key id ms) in
    let after = insert id (member_of now p) ms in
    (
      after,
      record {
        actions = send src (member_list (peers_of after)) ∷ joined is_new (member_of now p);
        member_discovered = is_new;
      },
    )
process_message now (member_list ps) src ms local = learn now local.peer_id ps ms

unfoldable pub is_late : ℕ → Duration → Member → Bool
is_late now timeout m = is_alive m.state && ltb timeout (now - m.last_seen)

unfoldable pub bury : ℕ → Duration → Member → Member
unfolding is_late
bury now timeout m = if is_late now timeout m then record m { state = dead } else m

-- The two events of a member declared dead.
unfoldable pub burial : String × Member → List GossipAction
burial e = emit (member_state_changed e.0 e.1.state dead) ∷ emit (member_left e.0) ∷ []

unfoldable pub burials : List (String × Member) → List GossipAction
unfolding burial
burials [] = []
burials (e ∷ es) = burial e ++ burials es

unfoldable pub check_member_failures : ℕ → Duration → Members → Members × List GossipAction
unfolding bury is_late
check_member_failures now timeout ms =
    (map (λ e. (e.0, bury now timeout e.1)) ms, burials (retain (λ e. is_late now timeout e.1) ms))

-- The round of the failure timer in `start`.
unfoldable pub failure_round : ℕ → Members → Members × List GossipAction
failure_round now ms = check_member_failures now (from_secs 30) ms

unfoldable pub alive_addrs : Members → List SocketAddr
alive_addrs ms = map (λ e. e.1.gossip_addr) (retain (λ e. is_alive e.1.state) ms)

pub data Target : Type 0 where
  nobody : Target
  target : SocketAddr → Target
  out_of_range : Target

-- `list[idx]`, which panics out of range.
unfoldable pub element : List SocketAddr → ℕ → Target
element [] idx = out_of_range
element (a ∷ as') zero = target a
element (a ∷ as') (suc idx) = element as' idx

unfoldable pub select_ping_target : ℕ → Members → Target
unfolding alive_addrs
select_ping_target random ms = elim (alive_addrs ms) [
  | [] ↦ nobody
  | a ∷ as' ↦ element (a ∷ as') (random % length (a ∷ as'))
]

unfoldable pub create_ping : Peer → GossipMessage
create_ping local = ping local

unfoldable pub create_join : Peer → GossipMessage
create_join local = join local.peer_id local.peer_gossip_addr local.peer_transport_addr
