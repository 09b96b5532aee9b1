-- ===== src/Prometheus/Agreeing.antt =====
-- src/adapters/outbound/prometheus_metrics_store.rs beside dashmap_metrics_store.rs: two stores behind
-- one port.
use edgeproxy.Prelude.{
  ℕ, ◌+◌, ◌%◌, ◌≡◌, refl, String, List, [], ◌∷◌, Option, none, some, lookup, insert, lookup-insert,
  string_key, inc64, u64_mod, arith,
}
use edgeproxy.Metrics
use edgeproxy.Metrics.{Metrics, Event, starts, ends, reports, decrement}
use edgeproxy.Prometheus.{
  PrometheusMetricsStore, BackendMetrics, new_store, get_or_create, put, increment_connections,
  decrement_connections, record_rtt, get_connection_count, get_last_rtt,
}

unfoldable pub apply : String → Event → PrometheusMetricsStore → PrometheusMetricsStore
apply id starts s = increment_connections id s
apply id (ends failures) s = decrement_connections failures id s
apply id (reports rtt_ms) s = record_rtt id rtt_ms s

unfoldable pub apply_all : List (String × Event) → PrometheusMetricsStore → PrometheusMetricsStore
apply_all [] s = s
apply_all ((id, e) ∷ es) s = apply_all es (apply id e s)

-- What the port shows of the metrics of one backend.
abbrev shown : Option BackendMetrics → Option (ℕ × ℕ)
shown none = none
shown (some m) = some (m.active_connections, m.last_rtt_ms)

abbrev shown_dashmap : Option Metrics.BackendMetrics → Option (ℕ × ℕ)
shown_dashmap none = none
shown_dashmap (some m) = some (m.current_conns, m.last_rtt_ms)

abbrev Agree : PrometheusMetricsStore → Metrics → Type 0
Agree s ms = (j : String) → shown (lookup j s.backends) ≡ shown_dashmap (lookup j ms)

module _ (s : PrometheusMetricsStore) (ms : Metrics) (id : String) (same : Agree s ms) where
  put-Agree :
      (m : BackendMetrics) (n : Metrics.BackendMetrics)
      → shown (some m) ≡ shown_dashmap (some n)
      → Agree (put id m s) (insert id n ms)
  unfolding put
  put-Agree m n e j =
      ground (arith, lookup-insert id j m s.backends, lookup-insert id j n ms, same j)

  same_defaults :
      shown (some (get_or_create id s)) ≡ shown_dashmap (some (Metrics.metrics_or_default id ms))
  unfolding get_or_create Metrics.metrics_or_default
  same_defaults = ground (arith, same id)

  apply-Agree : (e : Event) → Agree (apply id e s) (Metrics.apply id e ms)
  unfolding apply Metrics.apply increment_connections record_rtt put Metrics.increment_connections
      Metrics.record_rtt decrement_connections lookup Metrics.decrement_connections
  apply-Agree starts = λ j.
      put-Agree
        (record (get_or_create id s) {
          active_connections = inc64 (get_or_create id s).active_connections;
          total_connections = inc64 (get_or_create id s).total_connections;
        })
        (record (Metrics.metrics_or_default id ms) {
          current_conns = inc64 (Metrics.metrics_or_default id ms).current_conns;
        })
        (ground (arith, same_defaults)) j
  apply-Agree (ends failures) = ended (lookup id s.backends) (lookup id ms) (same id)
    where
      ended :
          (o : Option BackendMetrics) (p : Option Metrics.BackendMetrics)
          → shown o ≡ shown_dashmap p
          → Agree
              (elim o as (λ _. PrometheusMetricsStore) [
                | none ↦ s
                | some m ↦
                    put id
                      (record m { active_connections = decrement failures m.active_connections })
                      s
              ])
              (elim p as (λ _. Metrics) [
                | none ↦ ms
                | some m ↦
                    insert id (record m { current_conns = decrement failures m.current_conns }) ms
              ])
      ended none none e = same
      ended none (some n) e = cc
      ended (some m) none e = cc
      ended (some m) (some n) e =
          put-Agree (record m { active_connections = decrement failures m.active_connections })
            (record n { current_conns = decrement failures n.current_conns }) (ground (arith, e))
  apply-Agree (reports rtt_ms) =
      put-Agree
        (record (get_or_create id s) {
          last_rtt_ms = rtt_ms;
          rtt_sum_ms = ((get_or_create id s).rtt_sum_ms + rtt_ms) % u64_mod;
          rtt_count = inc64 (get_or_create id s).rtt_count;
        })
        (record (Metrics.metrics_or_default id ms) { last_rtt_ms = rtt_ms })
        (ground (arith, same_defaults))

apply_all-Agree :
    (es : List (String × Event)) (s : PrometheusMetricsStore) (ms : Metrics)
    → Agree s ms
    → Agree (apply_all es s) (Metrics.apply_all es ms)
unfolding apply_all Metrics.apply_all
apply_all-Agree [] s ms same = same
apply_all-Agree ((id, e) ∷ es) s ms same =
    apply_all-Agree es (apply id e s) (Metrics.apply id e ms) (apply-Agree s ms id same e)

answers-Agree :
    (s : PrometheusMetricsStore) (ms : Metrics) (j : String)
    → Agree s ms
    → (get_connection_count s j ≡ Metrics.get_connection_count ms j)
      × (get_last_rtt s j ≡ Metrics.get_last_rtt ms j)
unfolding get_connection_count get_last_rtt Metrics.get_connection_count Metrics.get_last_rtt
answers-Agree s ms j same = ground (arith, same j)

-- After any events of any backends the Prometheus store and the DashMap store, both new before, give
-- the same connection count and the same last round-trip time of every backend, when their exchanges
-- meet the same spurious failures.
pub stores-agree :
    (es : List (String × Event)) (region : String) (j : String)
    → let s = apply_all es (new_store region) in
      let ms = Metrics.apply_all es [] in
      (get_connection_count s j ≡ Metrics.get_connection_count ms j)
      × (get_last_rtt s j ≡ Metrics.get_last_rtt ms j)
stores-agree es region j =
    answers-Agree (apply_all es (new_store region)) (Metrics.apply_all es []) j
      (apply_all-Agree es (new_store region) [] (unfold new_store lookup in (λ i. refl)))
