-- ===== src/Sync/Saving.antt =====
-- src/replication/sync.rs: the numbers that the tables hold, in step with those of the service.
use edgeproxy.Prelude.{
  ℕ, ◌+◌, ◌<◌, ◌^◌, ◌≡◌, refl, sym, ◌∙◌, max, true, String, List, [], ◌∷◌, ◌++◌, lookup, insert,
  lookup-insert, string_key, ◌==◌, All, Unique, insert-Unique, Bool-cases, inl, inr, arith,
}
use edgeproxy.Changes.{Change}
use edgeproxy.Versions.{
  VersionVector, new_versions, update, get, update_each, get-update, get-update_each,
}
use edgeproxy.Replica.{Json}
use edgeproxy.Sync.{
  SyncService, load_versions, apply_to_table, log_change, apply_single_change, apply_changes,
  change_applied,
}

-- What the service and its tables count.
abbrev pub counters : SyncService → String × ℕ × VersionVector × List (String × ℕ)
counters s = (s.node_id, s.sequence, s.version_vector, s.db.versions)

module _ (json : Json) (now : ℕ) where
  apply_single_change-counters :
      (s : SyncService) (c : Change) → counters (apply_single_change json now s c).0 ≡ counters s
  unfolding apply_single_change apply_to_table log_change
  apply_single_change-counters s c = ground arith

  pub apply_changes-counters :
      (s : SyncService) (applied : ℕ) (cs : List Change)
      → counters (apply_changes json now s applied cs).0 ≡ counters s
  unfolding apply_changes
  apply_changes-counters s applied [] = refl
  apply_changes-counters s applied (c ∷ cs) =
      let t = (apply_single_change json now s c).0 in
      ground (
        arith,
        apply_single_change-counters s c,
        apply_changes-counters s applied cs,
        apply_changes-counters (record t { events = t.events ++ change_applied c ∷ [] })
            (applied + 1) cs,
      )

abbrev pub IsSmall : String × ℕ → Type 0
IsSmall e = e.1 < 2 ^ 63

-- The rows are read as they were written, if they are numbers of 63 bits.
pub load_versions-update_each :
    (es : List (String × ℕ)) (v : VersionVector)
    → All IsSmall es
    → load_versions es v ≡ (update_each es v, true)
unfolding load_versions update_each
load_versions-update_each [] v small = refl
load_versions-update_each (e ∷ es) v small =
    ground (arith, load_versions-update_each es (update e.0 e.1 v) small.1, small.0)

insert-IsSmall :
    (k : String) (n : ℕ) (es : List (String × ℕ))
    → n < 2 ^ 63
    → All IsSmall es
    → All IsSmall (insert k n es)
unfolding insert
insert-IsSmall k n [] small all = (small, tt)
insert-IsSmall k n (e ∷ es) small all = elim (Bool-cases (e.0 == k)) [
  | inl same ↦ rw (same, insert) (small, all.1)
  | inr other ↦ rw (other, insert) (all.0, insert-IsSmall k n es small all.1)
]

-- The tables hold the version vector, and the sequence number is the one of the node in it.
abbrev pub Saved : String × ℕ × VersionVector × List (String × ℕ) → Type 0
Saved (node_id, seq, v, es) =
    (seq ≡ get node_id v)
    × ((j : String) → get j v ≡ get j (record { versions = es }))
    × Unique es
    × All IsSmall es

-- A number above the last one of its node is written.
pub Saved-update :
    (node_id k : String) (seq last n : ℕ) (v : VersionVector) (es : List (String × ℕ))
    → Saved (node_id, last, v, es)
    → get k v < n
    → n < 2 ^ 63
    → seq ≡ get node_id (update k n v)
    → Saved (node_id, seq, update k n v, insert k n es)
unfolding get
Saved-update node_id k seq last n v es (_, same, unique, small) above below counted = (
  counted,
  λ j.
      ground (arith, same j, get-update j k n v, lookup-insert k j n es, string_key.eq_of_same k j),
  insert-Unique k n es unique,
  insert-IsSmall k n es below small,
)

pub load_versions_same :
    (t : SyncService)
    → Saved (counters t)
    → (j : String) → get j (update_each t.db.versions new_versions) ≡ get j t.version_vector
unfolding get lookup
load_versions_same t (_, same, unique, small) j =
    let none_seen : get j new_versions ≡ 0 = refl in
    let larger : max (get j new_versions) (get j (record { versions = t.db.versions }))
        ≡ get j (record { versions = t.db.versions }) =
      omega (arith, none_seen) in
    get-update_each j t.db.versions new_versions unique ∙ larger ∙ sym (same j)
