-- ===== src/Versions.antt =====
-- src/replication/sync.rs: VersionVector, the latest sequence number seen of each node.
use edgeproxy.Prelude.{
  ℕ, ◌≡◌, max, Bool, String, List, [], ◌∷◌, none, some, if◌then◌else◌, ltb, leb, ◌||◌, lookup,
  insert, lookup-insert, Unique, string_key, ◌==◌, arith,
}

pub record VersionVector : Type 0 where
  pub versions : List (String × ℕ)

abbrev pub new_versions : VersionVector
new_versions = record { versions = [] }

unfoldable pub get : String → VersionVector → ℕ
get node_id v = elim (lookup node_id v.versions) [ none ↦ 0 | some seq ↦ seq ]

unfoldable pub update : String → ℕ → VersionVector → VersionVector
unfolding get
update node_id seq v =
    let current = get node_id v in
    record { versions = insert node_id (if ltb current seq then seq else current) v.versions }

unfoldable pub has_seen : String → ℕ → VersionVector → Bool
has_seen node_id seq v = leb seq (get node_id v)

-- `for (node_id, seq) in &other.versions`.
unfoldable pub update_each : List (String × ℕ) → VersionVector → VersionVector
update_each [] v = v
update_each (e ∷ es) v = update_each es (update e.0 e.1 v)

unfoldable pub merge : VersionVector → VersionVector → VersionVector
merge v other = update_each other.versions v

pub get-update :
    (j k : String) (seq : ℕ) (v : VersionVector)
    → get j (update k seq v) ≡ (if k == j then max (get j v) seq else get j v)
unfolding get update
get-update j k seq v = ground (
  arith,
  lookup-insert k j (if ltb (get k v) seq then seq else get k v) v.versions,
  string_key.eq_of_same k j,
)

pub get-update_each :
    (j : String) (es : List (String × ℕ)) (v : VersionVector)
    → Unique es
    → get j (update_each es v) ≡ max (get j v) (get j (record { versions = es }))
unfolding update_each get lookup
get-update_each j [] v u = ground arith
get-update_each j (e ∷ es) v u = ground (
  arith,
  get-update_each j es (update e.0 e.1 v) u.1,
  get-update j e.0 e.1 v,
  u.0,
  string_key.eq_of_same e.0 j,
)

-- After a merge with a vector in which each node stands once, the number at every node is the larger
-- of the two numbers, and a sequence number is seen exactly if one of the two vectors has seen it.
pub get-merge :
    (j : String) (seq : ℕ) (v other : VersionVector)
    → Unique other.versions
    → (get j (merge v other) ≡ max (get j v) (get j other))
      × (has_seen j seq (merge v other) ≡ (has_seen j seq v || has_seen j seq other))
unfolding merge has_seen
get-merge j seq v other u =
    (get-update_each j other.versions v u, ground (arith, get-update_each j other.versions v u))
