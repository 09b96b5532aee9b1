-- ===== src/Gossip/Joining.antt =====
-- src/replication/gossip.rs: a node joins once.
use edgeproxy.Prelude.{
  ℕ, ◌+◌, ◌-◌, ◌≡◌, refl, not, ◌||◌, String, List, [], ◌∷◌, ◌++◌, if◌then◌else◌, lookup, insert, ap,
  Option, none, some, from_secs, lookup-insert, lookup-map, retain, Duration, string_key, ◌==◌,
  arith,
}
use edgeproxy.Net.{SocketAddr}
use edgeproxy.Gossip.{
  Member, Peer, GossipMessage, ping, ack, join, member_list, member_joined, GossipAction, emit,
  Members, member_of, contains_key, joined, learn, process_message, bury, burial, burials, is_late,
  check_member_failures, GossipEvent, send, no_action, failure_round,
}
use edgeproxy.Gossip.Service.{
  GossipService, Packet, perform, resume, act, act_if_free, reads, new_gossip, execute_actions,
  handle_message, death_round, stop_gossip, Turn, arrives, pings, fails, stops, turn, run_loop,
}

-- How many of the actions tell that this node joined.
abbrev pub join_of : String → GossipAction → ℕ
join_of id (emit (member_joined m)) = if m.node_id == id then 1 else 0
join_of id _ = 0

abbrev pub joins : String → List GossipAction → ℕ
joins id [] = 0
joins id (a ∷ as') = join_of id a + joins id as'

abbrev pub known : String → Members → ℕ
known id ms = if contains_key id ms then 1 else 0

joins-append :
    (id : String) (xs ys : List GossipAction) → joins id (xs ++ ys) ≡ joins id xs + joins id ys
joins-append id [] ys = omega arith
joins-append id (x ∷ xs) ys = omega (arith, joins-append id xs ys)

contains_key-insert :
    (id k : String) (m : Member) (ms : Members)
    → contains_key id (insert k m ms) ≡ (k == id || contains_key id ms)
unfolding contains_key
contains_key-insert id k m ms = ground (arith, lookup-insert k id m ms)

-- One node heard of.
known-insert :
    (id : String) (now : ℕ) (p : Peer) (ms : Members)
    → joins id (joined (not (contains_key p.peer_id ms)) (member_of now p)) + known id ms
      ≡ known id (insert p.peer_id (member_of now p) ms)
unfolding joined member_of
known-insert id now p ms = ground (
  arith,
  contains_key-insert id p.peer_id (member_of now p) ms,
  string_key.eq_of_same p.peer_id id,
)

known-learn :
    (id : String) (now : ℕ) (local : String) (ps : List Peer) (ms : Members)
    → joins id (learn now local ps ms).1.actions + known id ms ≡ known id (learn now local ps ms).0
unfolding learn
known-learn id now local [] ms = ground arith
known-learn id now local (p ∷ ps) ms = ground (
  arith,
  known-learn id now local ps ms,
  known-learn id now local ps (insert p.peer_id (member_of now p) ms),
  known-insert id now p ms,
  joins-append id (joined (not (contains_key p.peer_id ms)) (member_of now p))
      (learn now local ps (insert p.peer_id (member_of now p) ms)).1.actions,
)

known-process_message :
    (id : String) (now : ℕ) (msg : GossipMessage) (src : SocketAddr) (ms : Members) (local : Peer)
    → joins id (process_message now msg src ms local).1.actions + known id ms
      ≡ known id (process_message now msg src ms local).0
unfolding process_message
known-process_message id now (ping p) src ms local = omega (arith, known-insert id now p ms)
known-process_message id now (ack p) src ms local = known-insert id now p ms
known-process_message id now (join k g t) src ms local = omega (
  arith,
  known-insert id now
      (record { peer_id = k; peer_gossip_addr = g; peer_transport_addr = t; peer_incarnation = 0 })
      ms,
)
known-process_message id now (member_list ps) src ms local = known-learn id now local.peer_id ps ms

joins-burials : (id : String) (es : List (String × Member)) → joins id (burials es) ≡ 0
unfolding burials burial
joins-burials id [] = refl
joins-burials id (e ∷ es) = omega (arith, joins-burials id es)

known-check_member_failures :
    (id : String) (now : ℕ) (timeout : Duration) (ms : Members)
    → joins id (check_member_failures now timeout ms).1 + known id ms
      ≡ known id (check_member_failures now timeout ms).0
unfolding check_member_failures contains_key
known-check_member_failures id now timeout ms = ground (
  arith,
  joins-burials id (retain (λ e. is_late now timeout e.1) ms),
  lookup-map (λ k m. bury now timeout m) id ms,
)

-- How many of the events tell that this node joined.
abbrev pub told : String → List GossipEvent → ℕ
told id [] = 0
told id (e ∷ es) = join_of id (emit e) + told id es

told-append :
    (id : String) (xs ys : List GossipEvent) → told id (xs ++ ys) ≡ told id xs + told id ys
told-append id [] ys = omega arith
told-append id (x ∷ xs) ys = omega (arith, told-append id xs ys)

-- The events taken and those that wait account for the table.
abbrev Balanced : String → GossipService → Type 0
Balanced id s = told id s.events + joins id s.waiting ≡ known id s.members

module _ (serialize : GossipMessage → Option (List ℕ)) where
  told-execute_actions :
      (id : String) (unread : ℕ) (actions : List GossipAction)
      → let done = execute_actions serialize unread actions in
        told id done.emitted + joins id done.left ≡ joins id actions
  unfolding execute_actions
  told-execute_actions id unread [] = omega arith
  told-execute_actions id unread (send to message ∷ as') =
      omega (arith, told-execute_actions id unread as')
  told-execute_actions id unread (emit event ∷ as') =
      ground (arith, told-execute_actions id (unread + 1) as')
  told-execute_actions id unread (no_action ∷ as') =
      omega (arith, told-execute_actions id unread as')

  perform-Balanced :
      (id : String) (s : GossipService) (actions : List GossipAction) (after : Members)
      → told id s.events + joins id actions ≡ known id after
      → Balanced id (perform serialize after actions s).0
  unfolding perform
  perform-Balanced id s actions after counted = omega (
    arith,
    counted,
    told-append id s.events (execute_actions serialize s.unread actions).emitted,
    told-execute_actions id s.unread actions,
  )

  module _ (deserialize : List ℕ → Option GossipMessage) where
    act-Balanced :
        (id : String) (t : Turn) (s : GossipService)
        → told id s.events ≡ known id s.members
        → s.waiting ≡ []
        → Balanced id (act serialize deserialize t s).0
    unfolding act handle_message death_round failure_round
    act-Balanced id (arrives now bytes src) s before free = go (deserialize bytes)
      where
        go :
            (o : Option GossipMessage)
            → Balanced id
                (elim o as (λ _. GossipService × List Packet) [
                  | none ↦ (s, [])
                  | some message ↦ handle_message serialize now message src s
                ]).0
        go none = rw free (omega (arith, before))
        go (some message) =
            let (members, result) = process_message now message src s.members s.local in
            perform-Balanced id s result.actions members
              (omega (arith, before, known-process_message id now message src s.members s.local))
    act-Balanced id (pings random) s before free = rw free (omega (arith, before))
    act-Balanced id (fails now) s before free =
        let (members, actions) = check_member_failures now (from_secs 30) s.members in
        perform-Balanced id s actions members
          (omega (arith, before, known-check_member_failures id now (from_secs 30) s.members))
    act-Balanced id stops s before free = rw free (omega (arith, before))
    act-Balanced id reads s before free = rw free (omega (arith, before))

    act_if_free-Balanced :
        (id : String) (t : Turn) (s : GossipService) (w : List GossipAction)
        → s.waiting ≡ w
        → Balanced id s
        → Balanced id (act_if_free serialize deserialize w t s).0
    unfolding act_if_free
    act_if_free-Balanced id t s [] e before =
        let none_waits : joins id s.waiting ≡ 0 = ap (joins id) e in
        act-Balanced id t s (omega (arith, before, none_waits)) e
    act_if_free-Balanced id t s (a ∷ as') e before = before

    turn-Balanced :
        (id : String) (t : Turn) (s : GossipService)
        → Balanced id s
        → Balanced id (turn serialize deserialize t s).0
    unfolding turn stop_gossip resume
    turn-Balanced id (arrives now bytes src) s before =
        act_if_free-Balanced id (arrives now bytes src) s s.waiting refl before
    turn-Balanced id (pings random) s before =
        act_if_free-Balanced id (pings random) s s.waiting refl before
    turn-Balanced id (fails now) s before =
        act_if_free-Balanced id (fails now) s s.waiting refl before
    turn-Balanced id stops s before = before
    turn-Balanced id reads s before =
        perform-Balanced id (record s { unread = s.unread - 1 }) s.waiting s.members before

    run_loop-Balanced :
        (id : String) (ts : List Turn) (s : GossipService)
        → Balanced id s
        → Balanced id (run_loop serialize deserialize ts s).0
    unfolding run_loop
    run_loop-Balanced id [] s before = before
    run_loop-Balanced id (t ∷ ts) s before = ground (
      arith,
      run_loop-Balanced id ts (turn serialize deserialize t s).0 (turn-Balanced id t s before),
    )

    -- Through every run of the loop of a new service, whatever packets arrive and however its events are
    -- read, the event that a node joined has been emitted, or waits for room in the channel, once for
    -- each node in the table of members, dead ones included, and for no other node.
    pub joins_once :
        (id node_id : String) (gossip_addr transport_addr : SocketAddr) (peers : List String)
        (ts : List Turn)
        → let after =
            (run_loop serialize deserialize ts
              (new_gossip node_id gossip_addr transport_addr peers)).0 in
          told id after.events + joins id after.waiting
          ≡ (if contains_key id after.members then 1 else 0)
    unfolding contains_key lookup new_gossip
    joins_once id node_id gossip_addr transport_addr peers ts =
        run_loop-Balanced id ts (new_gossip node_id gossip_addr transport_addr peers) refl
