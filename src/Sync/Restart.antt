-- ===== src/Sync/Restart.antt =====
-- src/replication/sync.rs: a service that is made anew on the tables of one that stopped.
use mathlib.Core.Path.{subst}
use edgeproxy.Prelude.{
  Bool, ℕ, ◌+◌, ◌<◌, ◌≤◌, ◌^◌, ◌≡◌, refl, sym, ap, true, false, String, List, [], ◌∷◌, inc64,
  length, lookup, insert, string_key, ◌==◌, ==_refl, ◌⊎◌, All, Bool-cases, inl, inr, Option-cases,
  arith,
}
use edgeproxy.Changes.{ChangeKind, ChangeSet, Hashing, verify}
use edgeproxy.Versions.{new_versions, update, get, has_seen, get-update}
use edgeproxy.Replica.{Json, empty_db}
use edgeproxy.Sync.{
  SyncService, new_service, init_db, record_change, flush, persist_version, apply_changes,
  apply_changeset,
}
use edgeproxy.Sync.Saving.{
  counters, apply_changes-counters, load_versions-update_each, Saved, Saved-update,
  load_versions_same,
}

List-cases : {A : Type 0} (xs : List A) → (xs ≡ []) ⊎ ((x : A) × (rest : List A) × (xs ≡ x ∷ rest))
List-cases [] = inl refl
List-cases (x ∷ rest) = inr (x, rest, refl)

-- A call of `record_change` with the identifier and the time that it takes, of `flush`, with whether the channel takes
-- its event, or of
-- `apply_changeset`, whatever it returns.
pub data Operation : Type 0 where
  local_change : ℕ → ℕ → String → String → ChangeKind → String → Operation
  flush_due : Bool → Operation
  set_comes : ℕ → ChangeSet → Operation

-- A set that is received comes from another node, and its number has 63 bits.
abbrev pub InRange : String → Operation → Type 0
InRange node_id (local_change id now table pk kind data_text) = Unit {0}
InRange node_id (flush_due takes) = Unit {0}
InRange node_id (set_comes now c) = ((c.source == node_id) ≡ false) × (c.seq < 2 ^ 63)

-- The operation of the node leaves the tables in step, and adds at most one to its number.
abbrev InStep : SyncService → SyncService → Type 0
InStep s t = Saved (counters t) × (t.node_id ≡ s.node_id) × (t.sequence ≤ s.sequence + 1)

flush-InStep :
    (h : Hashing) (takes : Bool) (s : SyncService)
    → Saved (counters s)
    → s.sequence + 1 < 2 ^ 63
    → InStep s (flush h takes s).0
unfolding flush persist_version
flush-InStep h takes s saved room =
    let next : inc64 s.sequence ≡ s.sequence + 1 = ground arith in
    let v = update s.node_id (inc64 s.sequence) s.version_vector in
    let counted : inc64 s.sequence ≡ get s.node_id v = ground (
      arith,
      get-update s.node_id s.node_id (inc64 s.sequence) s.version_vector,
      ==_refl s.node_id,
      saved.0,
    ) in
    let written : Saved
        (s.node_id, inc64 s.sequence, v, insert s.node_id (inc64 s.sequence) s.db.versions) =
      Saved-update s.node_id s.node_id (inc64 s.sequence) s.sequence (inc64 s.sequence)
        s.version_vector s.db.versions saved (ground (arith, saved.0)) (ground arith) counted in
    elim (List-cases s.pending_changes) [
      | inl e ↦ rw (e, flush) (saved, refl, omega arith)
      | inr (c, cs, e) ↦ elim (Bool-cases takes) [
        | inl taken ↦ rw (e, taken, flush) (written, refl, omega (arith, next))
        | inr stuck ↦ rw (e, stuck, flush) (written, refl, omega (arith, next))
      ]
    ]

module _ (json : Json) (h : Hashing) where
  unfoldable pub operate : SyncService → Operation → SyncService
  operate s (local_change id now table pk kind data_text) =
      (record_change h.hash_text id now s table pk kind data_text).0
  operate s (flush_due takes) = (flush h takes s).0
  operate s (set_comes now c) = (apply_changeset json h now s c).0

  receive-InStep :
      (now : ℕ) (s : SyncService) (c : ChangeSet)
      → Saved (counters s)
      → (c.source == s.node_id) ≡ false
      → c.seq < 2 ^ 63
      → InStep s (apply_changeset json h now s c).0
  unfolding apply_changeset persist_version has_seen
  receive-InStep now s c saved other small =
      let r = apply_changes json now s 0 c.changes in
      let keeps : counters r.0 ≡ counters s = apply_changes-counters json now s 0 c.changes in
      let still : Saved (counters r.0) = subst Saved (sym keeps) saved in
      let node : r.0.node_id ≡ s.node_id = ap (λ t. t.0) keeps in
      let number : r.0.sequence ≡ s.sequence = ap (λ t. t.1) keeps in
      let vector : r.0.version_vector ≡ s.version_vector = ap (λ t. t.2) keeps in
      let counted : r.0.sequence ≡ get r.0.node_id (update c.source c.seq r.0.version_vector) =
        rw (number, node, vector)
          (ground (arith, get-update s.node_id c.source c.seq s.version_vector, other, saved.0)) in
      let same : InStep s s = (saved, refl, omega arith) in
      elim (Bool-cases (verify h c)) [
        | inr broken ↦ rw (broken, apply_changeset) same
        | inl intact ↦ elim (Bool-cases (has_seen c.source c.seq s.version_vector)) [
          | inl seen ↦ rw (intact, seen, apply_changeset) same
          | inr fresh ↦ elim (Option-cases r.1) [
            | inl e ↦ rw (intact, fresh, e, apply_changeset) (still, node, omega (arith, number))
            | inr (n, e) ↦
                rw (intact, fresh, e, apply_changeset)
                  (
                    Saved-update r.0.node_id c.source r.0.sequence r.0.sequence c.seq
                        r.0.version_vector r.0.db.versions still (rw vector (ground (arith, fresh)))
                        small counted,
                    node,
                    omega (arith, number),
                  )
          ]
        ]
      ]

  operate-InStep :
      (s : SyncService) (o : Operation)
      → Saved (counters s)
      → s.sequence + 1 < 2 ^ 63
      → InRange s.node_id o
      → InStep s (operate s o)
  unfolding record_change operate
  operate-InStep s (local_change id now table pk kind data_text) saved room range =
      (saved, refl, omega arith)
  operate-InStep s (flush_due takes) saved room range = flush-InStep h takes s saved room
  operate-InStep s (set_comes now c) saved room range = receive-InStep now s c saved range.0 range.1

  unfoldable pub operate_all : SyncService → List Operation → SyncService
  operate_all s [] = s
  operate_all s (o ∷ os) = operate_all (operate s o) os

  operate_all-Saved :
      (os : List Operation) (s : SyncService)
      → Saved (counters s)
      → s.sequence + length os < 2 ^ 63
      → All (InRange s.node_id) os
      → Saved (counters (operate_all s os))
  unfolding operate_all
  operate_all-Saved [] s saved room ranges = saved
  operate_all-Saved (o ∷ os) s saved room ranges =
      let (later, node, number) = operate-InStep s o saved (omega (arith, room)) ranges.0 in
      operate_all-Saved os (operate s o) later (omega (arith, room, number))
        (subst (λ id. All (InRange id) os) (sym node) ranges.1)

restart_Saved :
    (t : SyncService)
    → Saved (counters t)
    → let r = init_db (new_service t.node_id t.db) in
      (r.1 ≡ true)
      × (r.0.sequence ≡ t.sequence)
      × ((source : String) (seq : ℕ)
          → has_seen source seq r.0.version_vector ≡ has_seen source seq t.version_vector)
unfolding init_db new_service has_seen get lookup
restart_Saved t saved =
    let es = t.db.versions in
    let read = load_versions-update_each es new_versions saved.3 in
    (
      rw (read, init_db) refl,
      rw (read, init_db) (ground (arith, load_versions_same t saved t.node_id, saved.0)),
      λ source seq. rw (read, init_db) (ground (arith, load_versions_same t saved source)),
    )

-- After any calls of a new service on empty tables, a service of the same node that is made on its
-- tables and initialized goes on where the first one stopped: the tables are read without an error, the
-- next set has the next number, and the sets seen are the same. The sets received come from other nodes,
-- their numbers have 63 bits, and there are fewer than 2^63 calls.
pub restart_resumes :
    (json : Json) (h : Hashing) (node_id : String) (os : List Operation)
    → length os < 2 ^ 63
    → All (InRange node_id) os
    → let t = operate_all json h (new_service node_id empty_db) os in
      let r = init_db (new_service t.node_id t.db) in
      (r.1 ≡ true)
      × (r.0.sequence ≡ t.sequence)
      × ((source : String) (seq : ℕ)
          → has_seen source seq r.0.version_vector ≡ has_seen source seq t.version_vector)
unfolding new_service get lookup
restart_resumes json h node_id os room ranges =
    restart_Saved (operate_all json h (new_service node_id empty_db) os) (
      operate_all-Saved json h os (new_service node_id empty_db) (refl, λ j. refl, tt, tt)
        (omega (arith, room)) ranges)
