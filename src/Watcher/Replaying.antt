-- ===== src/Watcher/Replaying.antt =====
-- src/infrastructure/config_watcher.rs: what a subscriber that reads every change knows.
use edgeproxy.Prelude.{
  ℕ, ◌≡◌, ◌≢◌, refl, sym, ap, ◌∙◌, Bool, true, false, String, List, [], ◌∷◌, ◌++◌, Option, none,
  some, if◌then◌else◌, lookup, insert, lookup-insert, string_key, arith, map, ==_refl, Duration,
}
use edgeproxy.Watcher.{
  new_watcher, get, ConfigWatchError, file_error, ConfigChange, file_modified, value_changed,
  full_reload, ConfigWatcher, set, is_value, watch_file, unwatch_file, notify_reload, watch_round,
  check_files, check_each,
}

abbrev Values : Type 0
Values = List (String × String)

-- What a subscriber makes of the changes.
unfoldable pub replay : List ConfigChange → Values → Values
replay [] m = m
replay (value_changed key old new ∷ cs) m = replay cs (insert key new m)
replay (file_modified path ∷ cs) m = replay cs m
replay (full_reload ∷ cs) m = replay cs m

-- Each change tells the value that the subscriber has, and another one.
abbrev pub Honest : List ConfigChange → Values → Type 0
Honest [] m = Unit {0}
Honest (value_changed key old new ∷ cs) m =
    (lookup key m ≡ old) × (old ≢ some new) × Honest cs (insert key new m)
Honest (file_modified path ∷ cs) m = Honest cs m
Honest (full_reload ∷ cs) m = Honest cs m

replay-append :
    (cs ds : List ConfigChange) (m : Values) → replay (cs ++ ds) m ≡ replay ds (replay cs m)
unfolding replay
replay-append [] ds m = refl
replay-append (value_changed key old new ∷ cs) ds m = replay-append cs ds (insert key new m)
replay-append (file_modified path ∷ cs) ds m = replay-append cs ds m
replay-append (full_reload ∷ cs) ds m = replay-append cs ds m

Honest-append :
    (cs ds : List ConfigChange) (m : Values)
    → Honest cs m
    → Honest ds (replay cs m)
    → Honest (cs ++ ds) m
unfolding replay
Honest-append [] ds m h k = k
Honest-append (value_changed key old new ∷ cs) ds m (a, b, h) k =
    (a, b, Honest-append cs ds (insert key new m) h k)
Honest-append (file_modified path ∷ cs) ds m h k = Honest-append cs ds m h k
Honest-append (full_reload ∷ cs) ds m h k = Honest-append cs ds m h k

-- The calls that change a watcher.
pub data Call : Type 0 where
  sets : String → String → Call
  watches : (String → Option ℕ) → String → String → Call
  unwatches : String → Call
  reloads : Call
  rounds : (String → Option ℕ) → Call

unfoldable pub call : Call → ConfigWatcher → ConfigWatcher
call (sets key value) w = set key value w
call (watches mtime message path) w = (watch_file mtime message path w).0
call (unwatches path) w = unwatch_file path w
call reloads w = notify_reload w
call (rounds mtime) w = watch_round mtime w

unfoldable pub calls : List Call → ConfigWatcher → ConfigWatcher
calls [] w = w
calls (c ∷ cs) w = calls cs (call c w)

-- A subscriber that started from these values knows those of the watcher.
abbrev Knows : Values → ConfigWatcher → Type 0
Knows m w =
    ((j : String) → lookup j (replay w.changes m) ≡ lookup j w.config_values) × Honest w.changes m

modified_replay : (ps : List String) (m : Values) → replay (map (λ p. file_modified p) ps) m ≡ m
unfolding replay
modified_replay [] m = refl
modified_replay (p ∷ ps) m = modified_replay ps m

modified-Honest : (ps : List String) (m : Values) → Honest (map (λ p. file_modified p) ps) m
modified-Honest [] m = tt
modified-Honest (p ∷ ps) m = modified-Honest ps m

is_value-true : (o : Option String) (v : String) → is_value o v ≡ true → o ≡ some v
unfolding is_value
is_value-true none v h = cc
is_value-true (some old) v h = ap some (string_key.eq_of_same old v h)

is_value-false : (o : Option String) (v : String) → is_value o v ≡ false → o ≢ some v
unfolding is_value
is_value-false o v h e = ground (arith, ==_refl v)

insert_same :
    (key value j : String) (m : Values)
    → lookup key m ≡ some value
    → lookup j (insert key value m) ≡ lookup j m
insert_same key value j m e =
    ground (arith, lookup-insert key j value m, string_key.eq_of_same key j)

module _ (m : Values) (w : ConfigWatcher) (k : Knows m w) where
  silent-Knows :
      (cs : List ConfigChange)
      → ((n : Values) → replay cs n ≡ n)
      → ((n : Values) → Honest cs n)
      → Knows m (record w { changes = w.changes ++ cs })
  silent-Knows cs same honest = (
    (λ j. rw (replay-append w.changes cs m, same (replay w.changes m)) (k.0 j)),
    Honest-append w.changes cs m k.1 (honest (replay w.changes m)),
  )

  set_told :
      (key value : String) (told : Bool)
      → is_value (lookup key w.config_values) value ≡ told
      → let t = record w { config_values = insert key value w.config_values } in
        Knows m (
          if told then t else record t {
            changes = t.changes ++ value_changed key (lookup key w.config_values) value ∷ [];
          })
  set_told key value true e = (
    (λ j.
        k.0 j
        ∙ sym (
            insert_same key value j w.config_values
              (is_value-true (lookup key w.config_values) value e))),
    k.1,
  )
  set_told key value false e =
      let change : List ConfigChange = value_changed key (lookup key w.config_values) value ∷ [] in
      (
        (λ j. rw (replay-append w.changes change m) (
            unfold replay in
            ground (
              arith,
              lookup-insert key j value (replay w.changes m),
              lookup-insert key j value w.config_values,
              k.0 j,
            ))),
        Honest-append w.changes change m k.1
            (k.0 key, is_value-false (lookup key w.config_values) value e, tt),
      )

  watched_either :
      (path message : String) (o : Option ℕ)
      → Knows m
          (elim o as (λ _. ConfigWatcher × Option ConfigWatchError) [
            | none ↦ (w, some (file_error path message))
            | some t ↦ (record w { watched_files = insert path t w.watched_files }, none)
          ]).0
  watched_either path message none = k
  watched_either path message (some t) = k

  call-Knows : (c : Call) → Knows m (call c w)
  unfolding call set watch_file unwatch_file notify_reload watch_round check_files
  call-Knows (sets key value) =
      set_told key value (is_value (lookup key w.config_values) value) refl
  call-Knows (watches mtime message path) = watched_either path message (mtime path)
  call-Knows (unwatches path) = k
  call-Knows reloads = silent-Knows (full_reload ∷ []) (λ n. unfold replay in refl) (λ n. tt)
  call-Knows (rounds mtime) =
      silent-Knows (map (λ p. file_modified p) (check_each mtime w.watched_files).1)
        (modified_replay (check_each mtime w.watched_files).1)
        (modified-Honest (check_each mtime w.watched_files).1)

calls-Knows : (cs : List Call) (m : Values) (w : ConfigWatcher) → Knows m w → Knows m (calls cs w)
unfolding calls
calls-Knows [] m w k = k
calls-Knows (c ∷ cs) m w k = calls-Knows cs m (call c w) (call-Knows m w k c)

-- Through every history of values set, files watched and no longer watched, rounds of the watching
-- task and reloads of a new watcher, a subscriber that follows the changes sent has the value of
-- every key; and each change of a value tells the value that the key had, and a new one that differs.
pub changes-Honest :
    (cs : List Call) (poll_interval : Duration)
    → let w = calls cs (new_watcher poll_interval) in
      ((j : String) → lookup j (replay w.changes []) ≡ get j w) × Honest w.changes []
unfolding get
changes-Honest cs poll_interval =
    calls-Knows cs [] (new_watcher poll_interval) (unfold replay new_watcher in ((λ j. refl), tt))
