-- ===== src/Watcher/Examples.antt =====
-- Runs of the watcher, and its theorem at a concrete history.
use edgeproxy.Prelude.{
  ℕ, ◌≡◌, refl, String, List, [], ◌∷◌, none, some, from_secs, lookup, insert, string_key,
}
use edgeproxy.Watcher.{
  HotValue, value_changed, new_watcher, get, set, check_each, file_error, watch_file, get_or,
  new_hot_value, get_hot, set_hot,
}
use edgeproxy.Watcher.Replaying.{
  Call, sets, watches, rounds, reloads, calls, replay, Honest, changes-Honest,
}

-- A value that is set again to what it is tells nothing.
set_twice :
    (set "ttl" "5" (set "ttl" "5" (new_watcher (from_secs 5)))).changes
    ≡ value_changed "ttl" none "5" ∷ []
unfolding set new_watcher lookup insert
set_twice = refl

missing_file :
    (watch_file (λ path. none) "not found" "a.toml" (new_watcher (from_secs 5))).1
    ≡ some (file_error "a.toml" "not found")
unfolding watch_file
missing_file = refl

-- Only the file whose time went forward is reported.
one_modified :
    (check_each (λ path. some 7) (("a", 6) ∷ ("b", 7) ∷ ("c", 8) ∷ []))
    ≡ (("a", 7) ∷ ("b", 7) ∷ ("c", 8) ∷ [], "a" ∷ [])
unfolding check_each
one_modified = refl

default_value : get_or "ttl" "30" (new_watcher (from_secs 5)) ≡ "30"
unfolding get_or new_watcher lookup
default_value = refl

abbrev limit : HotValue ℕ
limit = new_hot_value "limit" 5

hot : get_hot (set_hot 6 limit) ≡ 6
unfolding get_hot set_hot new_hot_value
hot = refl

abbrev history : List Call
history =
    sets "ttl" "5"
    ∷ watches (λ path. some 1) "" "a.toml"
    ∷ sets "ttl" "6"
    ∷ rounds (λ path. some 2)
    ∷ reloads
    ∷ []

changes-Honest_example :
    let w = calls history (new_watcher (from_secs 5)) in
    ((j : String) → lookup j (replay w.changes []) ≡ get j w) × Honest w.changes []
changes-Honest_example = changes-Honest history (from_secs 5)
