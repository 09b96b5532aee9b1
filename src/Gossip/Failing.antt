-- ===== src/Gossip/Failing.antt =====
-- src/replication/gossip.rs: the failure check, and whom a node pings.
use mathlib.Core.Path.{subst}
use edgeproxy.Prelude.{
  ℕ, zero, suc, ◌-◌, ◌%◌, ◌≤◌, ◌<◌, ◌≡◌, refl, sym, true, false, String, List, [], ◌∷◌, Option,
  none, some, lookup, lookup-insert_self, lookup-map, length, Elem, here, there, Duration,
  string_key, ◌==◌, arith,
}
use edgeproxy.Net.{SocketAddr}
use edgeproxy.Gossip.{
  Member, alive, dead, is_alive, Peer, member_list, Members, member_of, learn, contains_key, joined,
  process_message, is_late, bury, check_member_failures, alive_addrs, Target, nobody, target,
  out_of_range, element, select_ping_target,
}

-- What a failure check makes of a member.
abbrev pub Checked : ℕ → Duration → Option Member → Option Member → Type 0
Checked now timeout none after = after ≡ none
Checked now timeout (some m) after =
    (b : Member) × (after ≡ some b)
    × (is_alive b.state ≡ true → now - b.last_seen ≤ timeout)
    × (is_late now timeout m ≡ false → b ≡ m)
    × (is_late now timeout m ≡ true → b ≡ record m { state = dead })

bury-Checked :
    (now : ℕ) (timeout : Duration) (m : Member)
    → Checked now timeout (some m) (some (bury now timeout m))
unfolding bury is_late
bury-Checked now timeout m =
    (bury now timeout m, refl, ground arith, λ e. rw (e, bury), λ e. rw (e, bury))

-- After a failure check every member that is alive was seen within the timeout; a member that was
-- alive and seen longer ago is dead, else unchanged; every other member is unchanged, and no member
-- comes or goes.
pub check-Checked :
    (now : ℕ) (timeout : Duration) (id : String) (ms : Members)
    → Checked now timeout (lookup id ms) (lookup id (check_member_failures now timeout ms).0)
unfolding check_member_failures
check-Checked now timeout id ms =
    subst (Checked now timeout (lookup id ms)) (sym (lookup-map (λ k m. bury now timeout m) id ms))
      (go (lookup id ms))
  where
    go :
        (o : Option Member)
        → Checked now timeout o
            (elim o as (λ _. Option Member) [ none ↦ none | some m ↦ some (bury now timeout m) ])
    go none = refl
    go (some m) = bury-Checked now timeout m

-- Whom the node may ping, and what an index in range gives.
abbrev pub Pinged : List SocketAddr → Target → Type 0
Pinged addrs nobody = addrs ≡ []
Pinged addrs (target a) = Elem a addrs
Pinged addrs out_of_range = ⊥

abbrev Indexed : List SocketAddr → Target → Type 0
Indexed addrs nobody = ⊥
Indexed addrs (target a) = Elem a addrs
Indexed addrs out_of_range = ⊥

Indexed-cons :
    (a : SocketAddr) (as' : List SocketAddr) (t : Target) → Indexed as' t → Indexed (a ∷ as') t
Indexed-cons a as' nobody e = e
Indexed-cons a as' (target b) m = there a as' m
Indexed-cons a as' out_of_range e = e

Pinged-Indexed : (as' : List SocketAddr) (t : Target) → Indexed as' t → Pinged as' t
Pinged-Indexed as' nobody e = elim e [ ]
Pinged-Indexed as' (target b) m = m
Pinged-Indexed as' out_of_range e = e

element-Indexed :
    (addrs : List SocketAddr) (i : ℕ) → i < length addrs → Indexed addrs (element addrs i)
unfolding element
element-Indexed [] i h = omega arith
element-Indexed (a ∷ as') zero h = here a as' refl
element-Indexed (a ∷ as') (suc i) h =
    Indexed-cons a as' (element as' i) (element-Indexed as' i (omega arith))

-- Whatever the random number is, the node pings the gossip address of a member that is alive, or
-- nobody if there is none; the index is never out of range.
pub select_ping_target-Pinged :
    (random : ℕ) (ms : Members) → Pinged (alive_addrs ms) (select_ping_target random ms)
unfolding select_ping_target
select_ping_target-Pinged random ms = go (alive_addrs ms)
  where
    go :
        (as' : List SocketAddr)
        → Pinged as'
            (elim as' [ [] ↦ nobody | a ∷ bs ↦ element (a ∷ bs) (random % length (a ∷ bs)) ])
    go [] = refl
    go (a ∷ bs) =
        Pinged-Indexed (a ∷ bs) _
          (element-Indexed (a ∷ bs) (random % length (a ∷ bs)) (omega arith))

-- A member that is declared dead is alive again, with no event, as soon as one entry of a list of
-- members names it, whatever the incarnation in the entry is, unless it is the node itself.
pub revived_silently :
    (now : ℕ) (p local : Peer) (src : SocketAddr) (ms : Members) {m : Member}
    → lookup p.peer_id ms ≡ some m
    → m.state ≡ dead
    → (p.peer_id == local.peer_id) ≡ false
    → let (after, result) = process_message now (member_list (p ∷ [])) src ms local in
      (b : Member) × (lookup p.peer_id after ≡ some b) × (b.state ≡ alive) × (result.actions ≡ [])
unfolding process_message learn contains_key joined member_of
revived_silently now p local src ms {m} found gone other = (
  member_of now p,
  rw other (lookup-insert_self p.peer_id (member_of now p) ms),
  refl,
  ground (arith, found, other),
)
