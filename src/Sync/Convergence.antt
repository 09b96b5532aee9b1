-- ===== src/Sync/Convergence.antt =====
-- src/replication/sync.rs: nodes that receive the same changes come to the same backends.
use edgeproxy.Prelude.{
  ℕ, ◌≡◌, refl, sym, ap, ◌∙◌, String, List, Option, none, string_key, inl, Elem, lookup, ◌↔◌,
}
use edgeproxy.Changes.{Change, ChangeSet, Hashing}
use edgeproxy.Versions.{new_versions}
use edgeproxy.Replica.{Json, empty_db, key_of, read_timestamp}
use edgeproxy.Sync.{SyncService, new_service}
use edgeproxy.Sync.Winner.{timestamp_of, row_after, live_of}
use edgeproxy.Sync.Agrees.{Agrees}
use edgeproxy.Sync.Delivery.{receive, all_changes, InOrder, receive-AgreesAll}
use edgeproxy.Sync.Latest.{winner, Latest, winner-Latest, Distinct, winner-same}

module _ (json : Json) (h : Hashing) (now : ℕ) (node_id : String) (cs : List ChangeSet) where
  abbrev pub node : SyncService
  node = receive json h now (new_service node_id empty_db) cs

  node-Agrees :
      InOrder json h new_versions cs
      → (pk : String) → Agrees json node pk (winner pk (all_changes cs))
  unfolding new_service lookup read_timestamp
  node-Agrees order =
      receive-AgreesAll json now h (new_service node_id empty_db) (λ _. none) cs order
        (λ pk. record { stamp = refl; cache = inl refl; row = refl; readable = refl })

  -- A new node that receives change sets, each intact, not seen before and of sound changes, comes to
  -- hold for each backend the timestamp of the latest change that they hold of it, and the row that
  -- this change writes, or no live row if it deletes or if there is no change of the backend.
  pub receive-Latest :
      (pk : String)
      → InOrder json h new_versions cs
      → (o : Option Change) × Latest pk (all_changes cs) o
        × (lookup (key_of "backends" pk) node.db.lww ≡ timestamp_of o)
        × (live_of (lookup pk node.db.backends) ≡ row_after json o)
  receive-Latest pk order =
      let a = node-Agrees order pk in
      (winner pk (all_changes cs), winner-Latest pk (all_changes cs), a.stamp, a.row)

-- Two new nodes that receive the same changes, in change sets divided and ordered in any way, repeated
-- or not, come to the same timestamp and the same live row of every backend, if no two different
-- changes of a backend have one timestamp and each change set is intact, not seen before by its node
-- and of sound changes.
pub receive-converges :
    (json : Json) (h : Hashing) (now later_now : ℕ) (a b pk : String) (cs ds : List ChangeSet)
    → InOrder json h new_versions cs
    → InOrder json h new_versions ds
    → ((c : Change) → Elem c (all_changes cs) ↔ Elem c (all_changes ds))
    → Distinct (all_changes cs)
    → (lookup (key_of "backends" pk) (node json h now a cs).db.lww
        ≡ lookup (key_of "backends" pk) (node json h later_now b ds).db.lww)
      × (live_of (lookup pk (node json h now a cs).db.backends)
          ≡ live_of (lookup pk (node json h later_now b ds).db.backends))
receive-converges json h now later_now a b pk cs ds order order' same apart =
    let m = node-Agrees json h now a cs order pk in
    let n = node-Agrees json h later_now b ds order' pk in
    let won = winner-same pk (all_changes cs) (all_changes ds) same apart in
    (m.stamp ∙ ap timestamp_of won ∙ sym n.stamp, m.row ∙ ap (row_after json) won ∙ sym n.row)
