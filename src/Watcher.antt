-- ===== src/Watcher.antt =====
-- src/infrastructure/config_watcher.rs: values that change at run time, and files that are watched.
-- A path is its text. What the file system answers during a call is the argument `mtime`: the time
-- of the last modification of a file, or none.
pub mod Replaying
mod Examples
use edgeproxy.Prelude.{
  ℕ, ◌*◌, Bool, true, false, not, String, List, [], ◌∷◌, ◌++◌, Option, none, some, if◌then◌else◌,
  ltb, length, lookup, insert, remove, string_key, ◌==◌, map, Duration, from_secs,
}

pub data ConfigChange : Type 0 where
  file_modified : String → ConfigChange
  value_changed : String → Option String → String → ConfigChange
  full_reload : ConfigChange

pub data ConfigWatchError : Type 0 where
  file_error : String → String → ConfigWatchError
  parse_error : String → ConfigWatchError

-- `changes` is what was sent on the channel of changes.
pub record ConfigWatcher : Type 0 where
  pub watched_files : List (String × ℕ)
  pub config_values : List (String × String)
  pub changes : List ConfigChange
  pub poll_interval : Duration

unfoldable pub new_watcher : Duration → ConfigWatcher
new_watcher poll_interval = record {
  watched_files = [];
  config_values = [];
  changes = [];
  poll_interval = poll_interval;
}

abbrev pub default_watcher : ConfigWatcher
default_watcher = record {
  watched_files = [];
  config_values = [];
  changes = [];
  poll_interval = from_secs 5;
}

-- `message` is the text of the system's error; none is `Ok(())`.
unfoldable pub watch_file :
    (String → Option ℕ) → String → String → ConfigWatcher → ConfigWatcher × Option ConfigWatchError
watch_file mtime message path w = elim (mtime path) [
  | none ↦ (w, some (file_error path message))
  | some t ↦ (record w { watched_files = insert path t w.watched_files }, none)
]

unfoldable pub unwatch_file : String → ConfigWatcher → ConfigWatcher
unwatch_file path w = record w { watched_files = remove path w.watched_files }

unfoldable pub is_value : Option String → String → Bool
is_value none value = false
is_value (some old) value = old == value

unfoldable pub set : String → String → ConfigWatcher → ConfigWatcher
unfolding is_value
set key value w =
    let old_value = lookup key w.config_values in
    let t = record w { config_values = insert key value w.config_values } in
    if is_value old_value value
    then t
    else record t { changes = t.changes ++ value_changed key old_value value ∷ [] }

unfoldable pub get : String → ConfigWatcher → Option String
get key w = lookup key w.config_values

unfoldable pub get_or : String → String → ConfigWatcher → String
get_or key default w = elim (lookup key w.config_values) [ none ↦ default | some v ↦ v ]

unfoldable pub get_all : ConfigWatcher → List (String × String)
get_all w = w.config_values

unfoldable pub notify_reload : ConfigWatcher → ConfigWatcher
notify_reload w = record w { changes = w.changes ++ full_reload ∷ [] }

-- The files with their times after the check, and those that were modified.
unfoldable pub check_each :
    (String → Option ℕ) → List (String × ℕ) → List (String × ℕ) × List String
check_each mtime [] = ([], [])
check_each mtime ((path, last) ∷ es) =
    let (files, modified) = check_each mtime es in
    elim (mtime path) [
      | none ↦ ((path, last) ∷ files, modified)
      | some t ↦
          if ltb last t
          then ((path, t) ∷ files, path ∷ modified)
          else ((path, last) ∷ files, modified)
    ]

unfoldable pub check_files : (String → Option ℕ) → ConfigWatcher → ConfigWatcher × List String
unfolding check_each
check_files mtime w =
    let (files, modified) = check_each mtime w.watched_files in
    (record w { watched_files = files }, modified)

-- A round of the task that `start` spawns.
unfoldable pub watch_round : (String → Option ℕ) → ConfigWatcher → ConfigWatcher
unfolding check_files
watch_round mtime w =
    let (t, modified) = check_files mtime w in
    record t { changes = t.changes ++ map (λ p. file_modified p) modified }

unfoldable pub watched_count : ConfigWatcher → ℕ
watched_count w = length w.watched_files

pub record HotValue {ℓ} (T : Type ℓ) : Type ℓ where
  pub value : T
  pub key : String

module _ {ℓ} {T : Type ℓ} where
  unfoldable pub new_hot_value : String → T → HotValue T
  new_hot_value key initial = record { value = initial; key = key }

  unfoldable pub get_hot : HotValue T → T
  get_hot h = h.value

  unfoldable pub set_hot : T → HotValue T → HotValue T
  set_hot value h = record h { value = value }

  unfoldable pub key_of_hot : HotValue T → String
  key_of_hot h = h.key
