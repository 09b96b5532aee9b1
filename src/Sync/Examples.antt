-- ===== src/Sync/Examples.antt =====
-- Runs of the replication, and its theorems at concrete change sets.
use edgeproxy.Prelude.{
  ℕ, ◌≡◌, refl, sym, ap, ◌∙◌, true, false, String, List, [], ◌∷◌, ◌++◌, Option, none, some,
  if◌then◌else◌, length, Elem, here, there, lookup, insert, string_key, number_key, ◌==◌, arith,
  Unique,
}
use edgeproxy.Clock.{HlcTimestamp, before, now_timestamp}
use edgeproxy.Changes.{
  Change, insert_row, delete_row, ChangeSet, Hashing, new_changeset, compute_checksum, verify,
  new_change,
}
use edgeproxy.Versions.{VersionVector, new_versions, get, update, has_seen, merge, update_each}
use edgeproxy.Replica.{
  Json, empty_db, key_of, read_timestamp, apply_backend_change, write_backend, delete_backend,
}
use edgeproxy.Sync.{
  new_service, init_db, load_versions, should_apply_change, newer, apply_changes,
  apply_single_change, apply_to_table, log_change, apply_changeset, ok, bad_data, flush,
  record_change, persist_version,
}
use edgeproxy.Sync.Winner.{live_of, row_after, timestamp_of}
use edgeproxy.Sync.Agrees.{Sound}
use edgeproxy.Sync.Delivery.{receive, all_changes, InOrder}
use edgeproxy.Sync.Latest.{Latest, Distinct}
use edgeproxy.Sync.Convergence.{node, receive-Latest, receive-converges}
use edgeproxy.Sync.Seen.{apply_changeset-again}
use edgeproxy.Sync.Restart.{
  Operation, local_change, flush_due, set_comes, operate, operate_all, restart_resumes,
}
use edgeproxy.Sync.Outbox.{Call, records, flushes, calls, Numbered, calls_complete}

-- Documents are texts with no fields; the empty text is no document.
abbrev plain : Json
plain = record {
  Document = String;
  from_str = λ t. if t == "" then none else some t;
  field = λ doc name. none;
  as_str = λ doc. none;
  as_i64 = λ doc. none;
}

-- The checksum is the number of changes.
abbrev counting : Hashing
counting = record {
  Bytes = ℕ;
  serialize = λ cs. some (length cs);
  hash = λ n. n;
  no_bytes = 0;
  hash_text = λ t. 7;
}

abbrev added : Change
added = record {
  id = 1;
  table = "backends";
  pk = "a";
  kind = insert_row;
  data_text = "{}";
  timestamp = record { wall_time = 10; counter = 0; node_hash = 7 };
  origin = "n1";
}

abbrev removed : Change
removed = record {
  id = 2;
  table = "backends";
  pk = "a";
  kind = delete_row;
  data_text = "";
  timestamp = record { wall_time = 20; counter = 0; node_hash = 8 };
  origin = "n2";
}

abbrev first_set : ChangeSet
first_set = record { source = "n1"; seq = 1; changes = added ∷ []; checksum = 1 }

abbrev second_set : ChangeSet
second_set = record { source = "n2"; seq = 1; changes = removed ∷ []; checksum = 1 }

added-Sound : Sound plain added
added-Sound = record { on_backends = refl; readable = omega arith; valid = ("{}", refl) }

removed-Sound : Sound plain removed
removed-Sound = record { on_backends = refl; readable = omega arith; valid = tt }

in_order : InOrder plain counting new_versions (first_set ∷ second_set ∷ [])
unfolding verify compute_checksum has_seen update get lookup insert
in_order = (refl, refl, (added-Sound, tt), (refl, refl, (removed-Sound, tt), tt))

in_reverse : InOrder plain counting new_versions (second_set ∷ first_set ∷ [])
unfolding verify compute_checksum has_seen update get lookup insert
in_reverse = (refl, refl, (removed-Sound, tt), (refl, refl, (added-Sound, tt), tt))

receive-Latest_example :
    (o : Option Change) × Latest "a" (added ∷ removed ∷ []) o
    × (lookup
          (key_of "backends" "a")
          (node plain counting 5 "n3" (first_set ∷ second_set ∷ [])).db.lww
        ≡ timestamp_of o)
    × (live_of (lookup "a" (node plain counting 5 "n3" (first_set ∷ second_set ∷ [])).db.backends)
        ≡ row_after plain o)
receive-Latest_example =
    receive-Latest plain counting 5 "n3" (first_set ∷ second_set ∷ []) "a" in_order

swapped : (x y c : Change) → Elem c (x ∷ y ∷ []) → Elem c (y ∷ x ∷ [])
swapped x y c (here _ _ e) = there y (x ∷ []) (here x [] e)
swapped x y c (there _ _ (here _ _ e)) = here y (x ∷ []) e
swapped x y c (there _ _ (there _ _ m)) = elim m [ ]

abbrev wall_time_of : Change → ℕ
wall_time_of c = c.timestamp.wall_time

two-Distinct : Distinct (added ∷ removed ∷ [])
two-Distinct c d (here _ _ e) (here _ _ f) p t = cc
two-Distinct c d (here _ _ e) (there _ _ (here _ _ f)) p t =
    let clash : 10 ≡ 20 =
      sym (ap wall_time_of e) ∙ ap (λ (s : HlcTimestamp). s.wall_time) t ∙ ap wall_time_of f in
    cc
two-Distinct c d (there _ _ (here _ _ e)) (here _ _ f) p t =
    let clash : 20 ≡ 10 =
      sym (ap wall_time_of e) ∙ ap (λ (s : HlcTimestamp). s.wall_time) t ∙ ap wall_time_of f in
    cc
two-Distinct c d (there _ _ (here _ _ e)) (there _ _ (here _ _ f)) p t = cc
two-Distinct c d (there _ _ (there _ _ m)) n p t = elim m [ ]
two-Distinct c d (here _ _ e) (there _ _ (there _ _ n)) p t = elim n [ ]
two-Distinct c d (there _ _ (here _ _ e)) (there _ _ (there _ _ n)) p t = elim n [ ]

receive-converges_example :
    (lookup
        (key_of "backends" "a")
        (node plain counting 5 "n3" (first_set ∷ second_set ∷ [])).db.lww
      ≡ lookup
          (key_of "backends" "a")
          (node plain counting 9 "n4" (second_set ∷ first_set ∷ [])).db.lww)
    × (live_of (lookup "a" (node plain counting 5 "n3" (first_set ∷ second_set ∷ [])).db.backends)
        ≡ live_of
            (lookup "a" (node plain counting 9 "n4" (second_set ∷ first_set ∷ [])).db.backends))
receive-converges_example =
    receive-converges plain counting 5 9 "n3" "n4" "a" (first_set ∷ second_set ∷ [])
      (second_set ∷ first_set ∷ []) in_order in_reverse
      (λ c. (swapped added removed c, swapped removed added c)) two-Distinct

first_applied : (apply_changeset plain counting 5 (new_service "n3" empty_db) first_set).1 ≡ ok 1
unfolding new_service verify compute_checksum has_seen update get lookup insert apply_changeset
    apply_changes should_apply_change newer read_timestamp apply_single_change apply_to_table
    apply_backend_change write_backend log_change persist_version
first_applied = refl

-- A set of the same number, whatever it holds.
abbrev late_set : ChangeSet
late_set = record { source = "n1"; seq = 1; changes = removed ∷ []; checksum = 1 }

late_intact : verify counting late_set ≡ true
unfolding verify compute_checksum
late_intact = refl

apply_changeset-again_example :
    apply_changeset plain counting 9
      (apply_changeset plain counting 5 (new_service "n3" empty_db) first_set).0
      late_set
    ≡ ((apply_changeset plain counting 5 (new_service "n3" empty_db) first_set).0, ok 0)
apply_changeset-again_example =
    apply_changeset-again plain counting 5 9 (new_service "n3" empty_db) first_set late_set
      first_applied refl (omega arith) late_intact

deleted_is_not_revived :
    live_of (lookup "a" (node plain counting 5 "n3" (second_set ∷ first_set ∷ [])).db.backends)
    ≡ none
unfolding receive new_service verify compute_checksum has_seen update get lookup insert
    apply_changeset apply_changes should_apply_change newer read_timestamp before
    apply_single_change apply_to_table apply_backend_change delete_backend write_backend log_change
    persist_version key_of
deleted_is_not_revived = refl

-- The data of the second change is no document: the first is written, the set fails.
bad_data_stops :
    (apply_changeset plain counting 5 (new_service "n3" empty_db) (record {
      source = "n1";
      seq = 1;
      changes = record added { data_text = "" } ∷ [];
      checksum = 1;
    })).1
    ≡ bad_data
unfolding new_service verify compute_checksum has_seen update get lookup insert apply_changeset
    apply_changes should_apply_change newer read_timestamp apply_single_change apply_to_table
    apply_backend_change write_backend log_change persist_version
bad_data_stops = refl

abbrev two_calls : List Call
two_calls =
    records 1 10 "backends" "a" insert_row "{}"
    ∷ flushes true
    ∷ flushes false
    ∷ records 2 20 "backends" "a" delete_row ""
    ∷ []

calls_complete_example :
    (all_changes (calls counting (new_service "n1" empty_db) two_calls).flushed
        ++ (calls counting (new_service "n1" empty_db) two_calls).service.pending_changes
      ≡ (new_service "n1" empty_db).pending_changes
        ++ (calls counting (new_service "n1" empty_db) two_calls).recorded)
    × Numbered counting
        (new_service "n1" empty_db).node_id
        (new_service "n1" empty_db).sequence
        (calls counting (new_service "n1" empty_db) two_calls).flushed
calls_complete_example = calls_complete counting two_calls (new_service "n1" empty_db)

one_set_flushed : length (calls counting (new_service "n1" empty_db) two_calls).flushed ≡ 1
unfolding calls record_change flush new_service persist_version new_change new_changeset
    compute_checksum now_timestamp update get lookup insert
one_set_flushed = refl

abbrev three_operations : List Operation
three_operations =
    set_comes 5 first_set ∷ local_change 3 20 "backends" "b" insert_row "{}" ∷ flush_due true ∷ []

restart_resumes_example :
    let t = operate_all plain counting (new_service "n3" empty_db) three_operations in
    let r = init_db (new_service t.node_id t.db) in
    (r.1 ≡ true)
    × (r.0.sequence ≡ t.sequence)
    × ((source : String) (seq : ℕ)
        → has_seen source seq r.0.version_vector ≡ has_seen source seq t.version_vector)
restart_resumes_example =
    restart_resumes plain counting "n3" three_operations (omega arith)
      ((refl, omega arith), (tt, (tt, tt)))

-- A set that is flushed after a restart has the number 2, and the set of the other node is seen.
numbers_go_on :
    let t = operate_all plain counting (new_service "n3" empty_db) three_operations in
    let r = init_db (new_service t.node_id t.db) in
    (r.0.sequence ≡ 1) × (has_seen "n1" first_set.seq r.0.version_vector ≡ true)
unfolding operate_all operate record_change flush init_db load_versions new_service verify
    compute_checksum has_seen update get lookup insert apply_changeset apply_changes
    should_apply_change newer read_timestamp before apply_single_change apply_to_table
    apply_backend_change write_backend log_change persist_version key_of now_timestamp new_change
    new_changeset
numbers_go_on = (refl, refl)

abbrev mine : VersionVector
mine = record { versions = ("n1", 5) ∷ ("n2", 3) ∷ [] }

abbrev theirs : VersionVector
theirs = record { versions = ("n1", 3) ∷ ("n3", 7) ∷ [] }

theirs-Unique : Unique theirs.versions
unfolding lookup
theirs-Unique = (refl, (refl, tt))

merged : get "n1" (merge mine theirs) ≡ 5
unfolding merge update_each update get lookup insert
merged = refl

-- A node that flushed one set starts again on its database.
restart_keeps_the_sequence :
    (init_db (
      new_service "n1"
        (calls counting (new_service "n1" empty_db) two_calls).service.db)).0.sequence
    ≡ 1
unfolding init_db load_versions calls record_change flush new_service persist_version new_change
    new_changeset compute_checksum now_timestamp update get lookup insert
restart_keeps_the_sequence = refl
