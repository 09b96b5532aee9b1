-- ===== src/Sync/Winner.antt =====
-- src/replication/sync.rs: one change on the table of backends, against the change that won so far.
use edgeproxy.Prelude.{
  ◌≡◌, refl, String, List, Option, none, some, if◌then◌else◌, lookup, insert, lookup-insert,
  string_key, ◌==◌, inl, inr, arith, Option-cases,
}
use edgeproxy.Clock.{HlcTimestamp}
use edgeproxy.Changes.{Change, ChangeKind, insert_row, update_row, delete_row}
use edgeproxy.Database.{integer, BackendRow}
use edgeproxy.Repository.Rows.{is_live}
use edgeproxy.Replica.{Json, row_of, delete_backend, write_backend, apply_backend_change}

abbrev pub timestamp_of : Option Change → Option HlcTimestamp
timestamp_of none = none
timestamp_of (some c) = some c.timestamp

-- The rows that the SQLite repository reads.
abbrev pub live_of : Option BackendRow → Option BackendRow
live_of none = none
live_of (some row) = if is_live row then some row else none

module _ (json : Json) where
  -- The data of a change parses, unless it is a deletion, which has no use for it.
  abbrev pub Valid : ChangeKind → String → Type 0
  Valid delete_row data_text = Unit {0}
  Valid _ data_text = (doc : json.Document) × (json.from_str data_text ≡ some doc)

  abbrev pub row_by : ChangeKind → String → Option json.Document → Option BackendRow
  row_by delete_row pk doc = none
  row_by _ pk none = none
  row_by _ pk (some doc) = some (row_of json pk doc)

  -- The live row of a backend whose latest change is this one.
  abbrev pub row_after : Option Change → Option BackendRow
  row_after none = none
  row_after (some c) = row_by c.kind c.pk (json.from_str c.data_text)

  write_backend-lookup :
      (c : Change) (rows : List (String × BackendRow)) (doc : json.Document) (pk : String)
      → json.from_str c.data_text ≡ some doc
      → (write_backend json c rows ≡ some (insert c.pk (row_of json c.pk doc) rows))
        × (live_of (lookup pk (insert c.pk (row_of json c.pk doc) rows))
            ≡ (if c.pk == pk then some (row_of json c.pk doc) else live_of (lookup pk rows)))
  unfolding write_backend is_live row_of
  write_backend-lookup c rows doc pk e =
      (rw (e, write_backend), ground (arith, lookup-insert c.pk pk (row_of json c.pk doc) rows))

  delete_backend-lookup :
      (k : String) (rows : List (String × BackendRow)) (pk : String)
      → live_of (lookup pk (delete_backend json k rows))
        ≡ (if k == pk then none else live_of (lookup pk rows))
  unfolding delete_backend is_live
  delete_backend-lookup k rows pk = elim (Option-cases (lookup k rows)) [
    | inl e ↦ rw (e, delete_backend) (ground (arith, e, string_key.eq_of_same k pk))
    | inr (row, e) ↦
        rw (e, delete_backend)
          (ground (arith, e, lookup-insert k pk (record row { deleted = integer 1 }) rows))
  ]

  -- What a valid change does to the live rows.
  pub apply_backend_change-lookup :
      (c : Change) (rows : List (String × BackendRow))
      → Valid c.kind c.data_text
      → (after : List (String × BackendRow)) × (apply_backend_change json c rows ≡ some after)
        × ((pk : String)
            → live_of (lookup pk after)
              ≡ (if c.pk == pk then row_after (some c) else live_of (lookup pk rows)))
  unfolding apply_backend_change
  apply_backend_change-lookup c rows v = go c.kind refl v
    where
      go :
          (k : ChangeKind)
          → c.kind ≡ k
          → Valid k c.data_text
          → (after : List (String × BackendRow)) × (apply_backend_change json c rows ≡ some after)
            × ((pk : String)
                → live_of (lookup pk after)
                  ≡ (if c.pk == pk then row_after (some c) else live_of (lookup pk rows)))
      go insert_row e (doc, d) = (
        insert c.pk (row_of json c.pk doc) rows,
        rw (e, apply_backend_change) (write_backend-lookup c rows doc "" d).0,
        λ pk. rw (e, d) (write_backend-lookup c rows doc pk d).1,
      )
      go update_row e (doc, d) = (
        insert c.pk (row_of json c.pk doc) rows,
        rw (e, apply_backend_change) (write_backend-lookup c rows doc "" d).0,
        λ pk. rw (e, d) (write_backend-lookup c rows doc pk d).1,
      )
      go delete_row e d = (
        delete_backend json c.pk rows,
        rw (e, apply_backend_change),
        λ pk. rw (e) (delete_backend-lookup c.pk rows pk),
      )
