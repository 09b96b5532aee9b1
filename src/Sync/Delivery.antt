-- ===== src/Sync/Delivery.antt =====
-- src/replication/sync.rs: change sets delivered to a node, one after another.
use mathlib.Core.Path.{subst}
use edgeproxy.Prelude.{
  ℕ, ◌+◌, ◌≡◌, refl, sym, ap, ◌∙◌, true, false, String, List, [], ◌∷◌, ◌++◌, Option, none, some,
  if◌then◌else◌, string_key, ◌==◌, arith, All,
}
use edgeproxy.Changes.{Change, ChangeSet, Hashing, verify}
use edgeproxy.Versions.{VersionVector, update, has_seen}
use edgeproxy.Replica.{Json}
use edgeproxy.Sync.{
  SyncService, change_applied, apply_single_change, apply_changes, apply_changeset, log_change,
  apply_to_table, persist_version, ApplyResult, ok, bad_data,
}
use edgeproxy.Sync.Agrees.{later, Sound, Agrees}
use edgeproxy.Sync.Batch.{winner_from, AgreesAll, apply_changes-AgreesAll}

-- `apply_changeset` at each of the change sets.
unfoldable pub receive : Json → Hashing → ℕ → SyncService → List ChangeSet → SyncService
receive json h now s [] = s
receive json h now s (c ∷ cs) = receive json h now (apply_changeset json h now s c).0 cs

-- What they hold, in the order of delivery.
abbrev pub all_changes : List ChangeSet → List Change
all_changes [] = []
all_changes (c ∷ cs) = c.changes ++ all_changes cs

-- Each change set is intact, is not seen when it comes, and holds sound changes.
abbrev pub InOrder : Json → Hashing → VersionVector → List ChangeSet → Type 0
InOrder json h v [] = Unit {0}
InOrder json h v (c ∷ cs) =
    (verify h c ≡ true)
    × (has_seen c.source c.seq v ≡ false)
    × All (Sound json) c.changes
    × InOrder json h (update c.source c.seq v) cs

winner_from-append :
    (pk : String) (cs ds : List Change) (best : Option Change)
    → winner_from pk best (cs ++ ds) ≡ winner_from pk (winner_from pk best cs) ds
winner_from-append pk [] ds best = refl
winner_from-append pk (c ∷ cs) ds best =
    winner_from-append pk cs ds (if c.pk == pk then later best c else best)

module _ (json : Json) (now : ℕ) where
  apply_single_change-versions :
      (s : SyncService) (c : Change)
      → (apply_single_change json now s c).0.version_vector ≡ s.version_vector
  unfolding apply_single_change apply_to_table log_change
  apply_single_change-versions s c = ground arith

  apply_changes-versions :
      (s : SyncService) (n : ℕ) (cs : List Change)
      → (apply_changes json now s n cs).0.version_vector ≡ s.version_vector
  unfolding apply_changes
  apply_changes-versions s n [] = refl
  apply_changes-versions s n (c ∷ cs) = ground (
    arith,
    apply_single_change-versions s c,
    apply_changes-versions s n cs,
    apply_changes-versions
        (record (apply_single_change json now s c).0 {
          events = (apply_single_change json now s c).0.events ++ change_applied c ∷ [];
        })
        (n + 1) cs,
  )

  module _ (h : Hashing) where
    apply_changeset-applies :
        (s t : SyncService) (c : ChangeSet) (m : ℕ)
        → verify h c ≡ true
        → has_seen c.source c.seq s.version_vector ≡ false
        → apply_changes json now s 0 c.changes ≡ (t, some m)
        → (apply_changeset json h now s c).0
          ≡ persist_version c.source c.seq
              (record t { version_vector = update c.source c.seq t.version_vector })
    unfolding apply_changeset
    apply_changeset-applies s t c m intact fresh e =
        rw (intact, fresh, apply_changeset)
          (ap
            (λ (r : SyncService × Option ℕ).
              (elim r.1 as (λ _. SyncService × ApplyResult) [
                | none ↦ (r.0, bad_data)
                | some n ↦ (
                  persist_version c.source c.seq
                      (record r.0 { version_vector = update c.source c.seq r.0.version_vector }),
                  ok n,
                )
              ]).0)
            e)

    -- A state whose tables and cache are those of another agrees with the same winners.
    recorded-AgreesAll :
        (t : SyncService) (c : ChangeSet) (won : String → Option Change)
        → AgreesAll json t won
        → AgreesAll json
            (persist_version c.source c.seq
              (record t { version_vector = update c.source c.seq t.version_vector }))
            won
    unfolding persist_version
    recorded-AgreesAll t c won a pk =
        let k = a pk in
        record { stamp = k.stamp; cache = k.cache; row = k.row; readable = k.readable }

    -- The deliveries move the winners on.
    pub receive-AgreesAll :
        (s : SyncService) (best : String → Option Change) (cs : List ChangeSet)
        → InOrder json h s.version_vector cs
        → AgreesAll json s best
        → AgreesAll json (receive json h now s cs) (λ pk. winner_from pk (best pk) (all_changes cs))
    unfolding receive persist_version
    receive-AgreesAll s best [] order a pk = a pk
    receive-AgreesAll s best (c ∷ cs) (intact, fresh, sound, order) a pk =
        let (t, m, e, g) = apply_changes-AgreesAll json now s 0 best c.changes sound a in
        let next =
          persist_version c.source c.seq
            (record t { version_vector = update c.source c.seq t.version_vector }) in
        let same : t.version_vector ≡ s.version_vector =
          ap (λ (r : SyncService × Option ℕ). r.0.version_vector) (sym e)
          ∙ apply_changes-versions s 0 c.changes in
        let later_on =
          receive-AgreesAll next (λ k. winner_from k (best k) c.changes) cs
            (subst (λ v. InOrder json h (update c.source c.seq v) cs) (sym same) order)
            (recorded-AgreesAll t c (λ k. winner_from k (best k) c.changes) g) pk in
        subst (Agrees json (receive json h now (apply_changeset json h now s c).0 cs) pk)
          (sym (winner_from-append pk c.changes (all_changes cs) (best pk)))
          (subst
            (λ u.
              Agrees json (receive json h now u cs) pk
                (winner_from pk (winner_from pk (best pk) c.changes) (all_changes cs)))
            (sym (apply_changeset-applies s t c m intact fresh e)) later_on)
