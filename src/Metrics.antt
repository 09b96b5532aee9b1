-- ===== src/Metrics.antt =====
-- src/adapters/outbound/dashmap_metrics_store.rs: the connection counts and round-trip times.
use edgeproxy.Prelude.{
  ℕ, zero, suc, ◌-◌, ◌≡◌, refl, String, List, [], ◌∷◌, Option, none, some, if◌then◌else◌, ltb,
  inc64, lookup, insert, lookup-insert, arith, ◌==◌, string_key, map, Option-cases, inl, inr, ◌∙◌,
  ap,
}

pub record BackendMetrics : Type 0 where
  pub current_conns : ℕ
  pub last_rtt_ms : ℕ

abbrev pub new_metrics : BackendMetrics
new_metrics = record { current_conns = 0; last_rtt_ms = 0 }

abbrev pub Metrics : Type 0
Metrics = List (String × BackendMetrics)

-- `entry(id).or_default()`.
unfoldable pub metrics_or_default : String → Metrics → BackendMetrics
metrics_or_default id ms = elim (lookup id ms) [ none ↦ new_metrics | some m ↦ m ]

unfoldable pub get_connection_count : Metrics → String → ℕ
get_connection_count ms id = elim (lookup id ms) [ none ↦ 0 | some m ↦ m.current_conns ]

unfoldable pub increment_connections : String → Metrics → Metrics
increment_connections id ms =
    let m = metrics_or_default id ms in
    insert id (record m { current_conns = inc64 m.current_conns }) ms

-- The `while` loop on `compare_exchange_weak`, which fails spuriously `failures` times.
unfoldable pub decrement : ℕ → ℕ → ℕ
decrement zero current = if ltb 0 current then current - 1 else current
decrement (suc failures) current =
    let again = decrement failures current in if ltb 0 current then again else current

unfoldable pub decrement_connections : ℕ → String → Metrics → Metrics
decrement_connections failures id ms = elim (lookup id ms) [
  | none ↦ ms
  | some m ↦ insert id (record m { current_conns = decrement failures m.current_conns }) ms
]

unfoldable pub record_rtt : String → ℕ → Metrics → Metrics
record_rtt id rtt_ms ms = insert id (record (metrics_or_default id ms) { last_rtt_ms = rtt_ms }) ms

unfoldable pub get_last_rtt : Metrics → String → Option ℕ
get_last_rtt ms id = elim (lookup id ms) [ none ↦ none | some m ↦ some m.last_rtt_ms ]

unfoldable pub backend_ids : Metrics → List String
backend_ids ms = map (λ e. e.0) ms

unfoldable pub get_metrics : Metrics → String → Option (ℕ × ℕ)
get_metrics ms id = elim (lookup id ms) [
  | none ↦ none
  | some m ↦ some (m.current_conns, m.last_rtt_ms)
]

decrement_lem : (failures current : ℕ) → decrement failures current ≡ current - 1
unfolding decrement
decrement_lem zero current = ground arith
decrement_lem (suc n) current = ground (arith, decrement_lem n current)

-- What the connections of a backend do: one starts, one ends (with the spurious failures met), or
-- one reports its round-trip time.
pub data Event : Type 0 where
  starts : Event
  ends reports : ℕ → Event

unfoldable pub apply : String → Event → Metrics → Metrics
apply id starts ms = increment_connections id ms
apply id (ends failures) ms = decrement_connections failures id ms
apply id (reports rtt_ms) ms = record_rtt id rtt_ms ms

unfoldable pub apply_all : List (String × Event) → Metrics → Metrics
apply_all [] ms = ms
apply_all ((id, e) ∷ es) ms = apply_all es (apply id e ms)

-- The count that a backend's own events make of `n`.
abbrev pub after : Event → ℕ → ℕ
after starts n = inc64 n
after (ends failures) n = n - 1
after (reports rtt_ms) n = n

unfoldable pub tally : String → List (String × Event) → ℕ → ℕ
tally j [] n = n
tally j ((id, e) ∷ es) n = tally j es (if id == j then after e n else n)

pub count-apply :
    (id j : String) (e : Event) (ms : Metrics)
    → get_connection_count (apply id e ms) j
      ≡ (if id == j then after e (get_connection_count ms j) else get_connection_count ms j)
unfolding apply get_connection_count increment_connections decrement_connections record_rtt
    metrics_or_default
count-apply id j starts ms = ground (
  arith,
  string_key.eq_of_same id j,
  lookup-insert id j
      (record (metrics_or_default id ms) {
        current_conns = inc64 (metrics_or_default id ms).current_conns;
      })
      ms,
)
count-apply id j (reports rtt_ms) ms = ground (
  arith,
  string_key.eq_of_same id j,
  lookup-insert id j (record (metrics_or_default id ms) { last_rtt_ms = rtt_ms }) ms,
)
count-apply id j (ends n) ms = elim (Option-cases (lookup id ms)) [
  | inl e ↦ ground (arith, string_key.eq_of_same id j)
  | inr (m, e) ↦ ground (
    arith,
    string_key.eq_of_same id j,
    decrement_lem n m.current_conns,
    lookup-insert id j (record m { current_conns = decrement n m.current_conns }) ms,
  )
]

-- After any events of any backends, the connection count of a backend is what its own events make of
-- it: one more for each start, in 64 bits, and one less for each end, but never below 0; whatever
-- spurious failures the exchanges meet.
pub count-apply_all :
    (es : List (String × Event)) (ms : Metrics) (j : String)
    → get_connection_count (apply_all es ms) j ≡ tally j es (get_connection_count ms j)
unfolding apply_all tally
count-apply_all [] ms j = refl
count-apply_all ((id, e) ∷ es) ms j =
    count-apply_all es (apply id e ms) j ∙ ap (tally j es) (count-apply id j e ms)
