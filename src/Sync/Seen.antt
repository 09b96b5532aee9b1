-- ===== src/Sync/Seen.antt =====
-- src/replication/sync.rs: change sets whose number is not above the highest one seen.
use edgeproxy.Prelude.{
  ℕ, ◌≤◌, ◌≡◌, refl, ap, ◌∙◌, Bool, true, false, not, String, Option, none, some, if◌then◌else◌,
  string_key, ==_refl, arith,
}
use edgeproxy.Changes.{ChangeSet, Hashing, verify}
use edgeproxy.Versions.{VersionVector, update, has_seen, get-update}
use edgeproxy.Replica.{Json}
use edgeproxy.Sync.{
  SyncService, apply_changes, apply_changeset, ApplyResult, ok, bad_checksum, bad_data,
  persist_version,
}

has_seen-update :
    (source : String) (seq below : ℕ) (v : VersionVector)
    → below ≤ seq
    → has_seen source below (update source seq v) ≡ true
unfolding has_seen
has_seen-update source seq below v le =
    ground (arith, get-update source source seq v, ==_refl source)

has_seen-below :
    (source : String) (seq below : ℕ) (v : VersionVector)
    → has_seen source seq v ≡ true
    → below ≤ seq
    → has_seen source below v ≡ true
unfolding has_seen
has_seen-below source seq below v h le = ground arith

module _ (json : Json) (h : Hashing) (now : ℕ) where
  apply_changeset-seen :
      (s : SyncService) (d : ChangeSet)
      → verify h d ≡ true
      → has_seen d.source d.seq s.version_vector ≡ true
      → apply_changeset json h now s d ≡ (s, ok 0)
  unfolding apply_changeset
  apply_changeset-seen s d intact seen = rw (intact, seen, apply_changeset)

  -- Whatever a call that succeeds on a set that was not seen does, it leaves the set seen.
  seen-after :
      (s : SyncService) (c : ChangeSet) (m : ℕ)
      → (apply_changeset json h now s c).1 ≡ ok m
      → (below : ℕ) → below ≤ c.seq
      → has_seen c.source below (apply_changeset json h now s c).0.version_vector ≡ true
  unfolding apply_changeset persist_version
  seen-after s c m =
      go (verify h c) (has_seen c.source c.seq s.version_vector) refl
        (apply_changes json now s 0 c.changes)
    where
      go :
          (intact seen : Bool)
          → has_seen c.source c.seq s.version_vector ≡ seen
          → (r : SyncService × Option ℕ)
          → let res =
              if not intact
              then (s, bad_checksum)
              else if seen
              then (s, ok 0)
              else elim r.1 as (λ _. SyncService × ApplyResult) [
                | none ↦ (r.0, bad_data)
                | some n ↦ (
                  persist_version c.source c.seq
                      (record r.0 { version_vector = update c.source c.seq r.0.version_vector }),
                  ok n,
                )
              ] in
            res.1 ≡ ok m
            → (below : ℕ) → below ≤ c.seq
            → has_seen c.source below res.0.version_vector ≡ true
      go false seen q r e below le = cc
      go true true q r e below le = has_seen-below c.source c.seq below s.version_vector q le
      go true false q (t, none) e below le = cc
      go true false q (t, some n) e below le =
          has_seen-update c.source c.seq below t.version_vector le

-- After a change set was taken in, every intact set of the same source with a number not above its
-- number changes nothing and is answered with 0 changes: the set itself, when it comes again, and a
-- set with a lower number that comes late, whatever changes it holds.
pub apply_changeset-again :
    (json : Json) (h : Hashing) (now then_now : ℕ) (s : SyncService) (c d : ChangeSet) {m : ℕ}
    → (apply_changeset json h now s c).1 ≡ ok m
    → d.source ≡ c.source
    → d.seq ≤ c.seq
    → verify h d ≡ true
    → apply_changeset json h then_now (apply_changeset json h now s c).0 d
      ≡ ((apply_changeset json h now s c).0, ok 0)
apply_changeset-again json h now then_now s c d {m} e same le intact =
    apply_changeset-seen json h then_now (apply_changeset json h now s c).0 d intact (
      ap (λ k. has_seen k d.seq (apply_changeset json h now s c).0.version_vector) same
      ∙ seen-after json h now s c m e d.seq le)
