-- ===== src/Sync/Agrees.antt =====
-- src/replication/sync.rs: the tables and the cache agree with the change that won, and each change
-- that is applied or skipped keeps them so.
use edgeproxy.Prelude.{
  ℕ, ◌^◌, ◌<◌, ◌≡◌, sym, ap, ◌∙◌, Bool, true, false, String, List, Option, none, some,
  if◌then◌else◌, lookup, insert, lookup-insert, string_key, number_key, ◌==◌, ◌⊎◌, inl, inr, arith,
  Bool-cases,
}
use edgeproxy.Clock.{HlcTimestamp}
use edgeproxy.Changes.{Change}
use edgeproxy.Database.{BackendRow}
use edgeproxy.Replica.{Json, key_of, read_timestamp, apply_backend_change}
use edgeproxy.Sync.{
  SyncService, newer, should_apply_change, apply_to_table, log_change, apply_single_change,
}
use edgeproxy.Sync.Keys.{key_of-injective}
use edgeproxy.Sync.Winner.{timestamp_of, live_of, Valid, row_after, apply_backend_change-lookup}

-- The latest of the changes of a backend, by their timestamps; the first of those that have the same.
abbrev pub later : Option Change → Change → Option Change
later best c = if newer c.timestamp (timestamp_of best) then some c else best

-- A change of a backend that a node can read back: its time fits an i64 and its data parses.
pub record Sound (json : Json) (c : Change) : Type 0 where
  pub on_backends : c.table ≡ "backends"
  pub readable : c.timestamp.wall_time < 2 ^ 63
  pub valid : Valid json c.kind c.data_text

-- For a backend: what its last write, its row and the cache are, if `best` won.
pub record Agrees (json : Json) (s : SyncService) (pk : String) (best : Option Change)
    : Type 0 where
  pub stamp : lookup (key_of "backends" pk) s.db.lww ≡ timestamp_of best
  pub cache :
      (lookup (key_of "backends" pk) s.last_timestamps ≡ none)
      ⊎ (lookup (key_of "backends" pk) s.last_timestamps ≡ timestamp_of best)
  pub row : live_of (lookup pk s.db.backends) ≡ row_after json best
  pub readable : read_timestamp (timestamp_of best) ≡ timestamp_of best

module _ (json : Json) (s : SyncService) (c : Change) (sound : Sound json c) where
  pub should_apply_change-newer :
      (best : Option Change)
      → Agrees json s c.pk best
      → should_apply_change s c ≡ newer c.timestamp (timestamp_of best)
  unfolding should_apply_change newer
  should_apply_change-newer best a = elim a.cache [
    | inl e ↦ rw (sound.on_backends, should_apply_change, e, a.stamp, a.readable)
    | inr e ↦ rw (sound.on_backends, should_apply_change, e, a.stamp, a.readable) (ground arith)
  ]

  apply_to_table-valid :
      (t : SyncService) (after : List (String × BackendRow))
      → apply_backend_change json c t.db.backends ≡ some after
      → apply_to_table json c t ≡ some (record t { db = record t.db { backends = after } })
  unfolding apply_to_table apply_backend_change
  apply_to_table-valid t after e = rw (sound.on_backends, apply_to_table, e)

  pub log_change-others :
      (now : ℕ) (t : SyncService)
      → ((log_change json now c t).db.lww ≡ t.db.lww)
        × ((log_change json now c t).db.backends ≡ t.db.backends)
        × ((log_change json now c t).last_timestamps ≡ t.last_timestamps)
  unfolding log_change
  log_change-others now t = (ground arith, ground arith, ground arith)

  abbrev stamped : SyncService
  stamped = record s {
    db = record s.db { lww = insert (key_of c.table c.pk) c.timestamp s.db.lww };
  }

  abbrev written : List (String × BackendRow) → SyncService
  written after = record stamped {
    db = record stamped.db { backends = after };
    last_timestamps = insert (key_of c.table c.pk) c.timestamp s.last_timestamps;
  }

  apply_single_change-written :
      (now : ℕ) (after : List (String × BackendRow))
      → apply_backend_change json c s.db.backends ≡ some after
      → apply_single_change json now s c ≡ (log_change json now c (written after), true)
  unfolding apply_single_change apply_to_table log_change
  apply_single_change-written now after e =
      ap
        (λ o. elim o as (λ _. SyncService × Bool) [
          | none ↦ (stamped, false)
          | some t ↦ (
            log_change json now c (record t {
              last_timestamps = insert (key_of c.table c.pk) c.timestamp t.last_timestamps;
            }),
            true,
          )
        ])
        (apply_to_table-valid stamped after e)

  timestamp-readable : read_timestamp (some c.timestamp) ≡ some c.timestamp
  unfolding read_timestamp
  timestamp-readable = ground (arith, sound.readable)

  same_key : (pk : String) → (key_of c.table c.pk == key_of "backends" pk) ≡ (c.pk == pk)
  same_key pk = elim (Bool-cases (c.pk == pk)) [
    | inl e ↦
        string_key.same_of_eq _ _ (
          ap (λ t. key_of t c.pk) sound.on_backends
          ∙ ap (key_of "backends") (string_key.eq_of_same c.pk pk e))
        ∙ sym e
    | inr e ↦ elim (Bool-cases (key_of c.table c.pk == key_of "backends" pk)) [
      | inl k ↦
          let keys =
            sym (ap (λ t. key_of t c.pk) sound.on_backends) ∙ string_key.eq_of_same _ _ k in
          k ∙ sym (string_key.same_of_eq c.pk pk (key_of-injective c.pk pk keys))
      | inr k ↦ k ∙ sym e
    ]
  ]

  stamp_insert :
      (pk : String) (es : List (String × HlcTimestamp))
      → lookup (key_of "backends" pk) (insert (key_of c.table c.pk) c.timestamp es)
        ≡ (if c.pk == pk then some c.timestamp else lookup (key_of "backends" pk) es)
  stamp_insert pk es =
      lookup-insert (key_of c.table c.pk) (key_of "backends" pk) c.timestamp es
      ∙ ap (λ b. if b then some c.timestamp else lookup (key_of "backends" pk) es) (same_key pk)

  written-Agrees :
      (now : ℕ) (after : List (String × BackendRow)) (pk : String) (best : Option Change)
      → live_of (lookup pk after)
        ≡ (if c.pk == pk then row_after json (some c) else live_of (lookup pk s.db.backends))
      → Agrees json s pk best
      → Agrees json (log_change json now c (written after)) pk (if c.pk == pk then some c else best)
  written-Agrees now after pk best rows a =
      go (c.pk == pk) (lww ∙ stamp_insert pk s.db.lww) (cached ∙ stamp_insert pk s.last_timestamps)
        (ap (λ (bs : List (String × BackendRow)). live_of (lookup pk bs))
            (log_change-others now (written after)).1
          ∙ rows)
    where
      t : SyncService
      t = log_change json now c (written after)

      key : String
      key = key_of "backends" pk

      lww : lookup key t.db.lww ≡ lookup key (written after).db.lww
      lww = ap (lookup key) (log_change-others now (written after)).0

      cached : lookup key t.last_timestamps ≡ lookup key (written after).last_timestamps
      cached = ap (lookup key) (log_change-others now (written after)).2

      go :
          (b : Bool)
          → lookup key t.db.lww ≡ (if b then some c.timestamp else lookup key s.db.lww)
          → lookup key t.last_timestamps
            ≡ (if b then some c.timestamp else lookup key s.last_timestamps)
          → live_of (lookup pk t.db.backends)
            ≡ (if b then row_after json (some c) else live_of (lookup pk s.db.backends))
          → Agrees json t pk (if b then some c else best)
      go true l k r = record { stamp = l; cache = inr k; row = r; readable = timestamp-readable }
      go false l k r = record {
        stamp = l ∙ a.stamp;
        cache = elim a.cache [ inl e ↦ inl (k ∙ e) | inr e ↦ inr (k ∙ e) ];
        row = r ∙ a.row;
        readable = a.readable;
      }

  -- A change is applied: it is the last write of its backend.
  pub apply_single_change-valid :
      (now : ℕ)
      → (t : SyncService) × (apply_single_change json now s c ≡ (t, true))
        × ((pk : String) (best : Option Change)
            → Agrees json s pk best
            → Agrees json t pk (if c.pk == pk then some c else best))
  apply_single_change-valid now =
      let (after, e, rows) = apply_backend_change-lookup json c s.db.backends sound.valid in
      (
        log_change json now c (written after),
        apply_single_change-written now after e,
        λ pk best. written-Agrees now after pk best (rows pk),
      )
