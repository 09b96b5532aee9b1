-- ===== src/Gossip/Handshake.antt =====
-- src/replication/gossip.rs: what a node knows when it has joined through another one.
use edgeproxy.Prelude.{
  ℕ, ◌≡◌, refl, ◌∙◌, not, String, List, [], ◌∷◌, Option, none, some, if◌then◌else◌, lookup, insert,
  lookup-insert, string_key, ◌==◌, All, Unique, insert-Unique, arith, Bool-cases, inl, inr,
}
use edgeproxy.Net.{SocketAddr}
use edgeproxy.Gossip.{
  Member, Members, Peer, member_list, member_of, peers_of, learn, process_message, create_join,
  contains_key, joined, GossipAction, send,
}

-- Each member stands under its own id.
abbrev pub Keyed : Members → Type 0
Keyed = All (λ (e : String × Member). e.1.node_id ≡ e.0)

abbrev pub peer_of : Member → Peer
peer_of m = record {
  peer_id = m.node_id;
  peer_gossip_addr = m.gossip_addr;
  peer_transport_addr = m.transport_addr;
  peer_incarnation = m.incarnation;
}

-- What a node that hears of a member by a list stores of it.
unfoldable pub heard : ℕ → Option Member → Option Member
unfolding member_of
heard now none = none
heard now (some m) = some (member_of now (peer_of m))

abbrev or_else : Option Member → Option Member → Option Member
or_else none known = known
or_else (some m) known = some m

learn-peers_of :
    (now : ℕ) (local j : String) (ms known : Members)
    → Keyed ms
    → Unique ms
    → lookup j (learn now local (peers_of ms) known).0
      ≡ (if j == local then lookup j known else or_else (heard now (lookup j ms)) (lookup j known))
unfolding learn peers_of lookup heard
learn-peers_of now local j [] known keyed unique = ground arith
learn-peers_of now local j (e ∷ ms) known keyed unique = ground (
  arith,
  learn-peers_of now local j ms known keyed.1 unique.1,
  learn-peers_of now local j ms (insert e.1.node_id (member_of now (peer_of e.1)) known) keyed.1
      unique.1,
  lookup-insert e.1.node_id j (member_of now (peer_of e.1)) known,
  keyed.0,
  unique.0,
  string_key.eq_of_same e.0 j,
  string_key.eq_of_same j local,
  string_key.same_of_eq j local,
  string_key.same_of_eq e.0 j,
  string_key.eq_of_same e.1.node_id local,
  string_key.same_of_eq e.1.node_id local,
  string_key.eq_of_same e.1.node_id j,
  string_key.same_of_eq e.1.node_id j,
)

insert-Keyed : (m : Member) (ms : Members) → Keyed ms → Keyed (insert m.node_id m ms)
unfolding insert
insert-Keyed m [] keyed = (refl, tt)
insert-Keyed m (e ∷ ms) keyed = elim (Bool-cases (e.0 == m.node_id)) [
  | inl same ↦ rw (same, insert) (refl, keyed.1)
  | inr other ↦ rw (other, insert) (keyed.0, insert-Keyed m ms keyed.1)
]

told_by :
    (later : ℕ) (id j : String) (m : Member) (ms : Members)
    → (if j == id
        then lookup j []
        else or_else (heard later (lookup j (insert id m ms))) (lookup j []))
      ≡ (if j == id then none else heard later (lookup j ms))
unfolding lookup heard
told_by later id j m ms = ground (
  arith,
  lookup-insert id j m ms,
  string_key.eq_of_same id j,
  string_key.same_of_eq id j,
  string_key.same_of_eq j id,
)

-- A node that joins through another one is answered with a list, from which it comes to know every
-- member that stands in the other's table, alive and with the addresses that the other has, and nobody
-- else: so it does not know itself, and the node that answered only if that one stands in its own table.
-- The other's members stand each under its own id, and no id stands twice.
pub handshake :
    (now later : ℕ) (src dst : SocketAddr) (a b : Peer) (ms : Members) (j : String)
    → Keyed ms
    → Unique ms
    → let asked = process_message now (create_join a) src ms b in
      let answer = member_list (peers_of asked.0) in
      let told = process_message later answer dst [] a in
      ((others : List GossipAction) × (asked.1.actions ≡ send src answer ∷ others))
      × (lookup j told.0 ≡ (if j == a.peer_id then none else heard later (lookup j ms)))
unfolding process_message create_join
handshake now later src dst a b ms j keyed unique =
    let m : Member = member_of now (record a { peer_incarnation = 0 }) in
    let after = insert a.peer_id m ms in
    (
      (joined (not (contains_key a.peer_id ms)) m, refl),
      learn-peers_of later a.peer_id j after [] (unfold member_of in insert-Keyed m ms keyed)
            (insert-Unique a.peer_id m ms unique)
          ∙ told_by later a.peer_id j m ms,
    )
