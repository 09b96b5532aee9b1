-- ===== src/Prometheus/Examples.antt =====
-- Runs of the Prometheus store, and its theorem at concrete events.
use edgeproxy.Prelude.{◌≡◌, refl, String, List, [], ◌∷◌, lookup, insert, display, string_key}
use edgeproxy.Float.{whole}
use edgeproxy.Metrics
use edgeproxy.Metrics.{Event, starts, ends, reports}
use edgeproxy.Prometheus.{
  new_store, record_error, record_bytes, increment_connections, get_connection_count, get_last_rtt,
  backend_lines,
}
use edgeproxy.Prometheus.Agreeing.{apply_all, stores-agree}

abbrev history : List (String × Event)
history =
    ("a", starts)
    ∷ ("b", starts)
    ∷ ("a", starts)
    ∷ ("a", reports 12)
    ∷ ("b", ends 0)
    ∷ ("b", ends 1)
    ∷ []

stores-agree_example :
    let s = apply_all history (new_store "sa") in
    let ms = Metrics.apply_all history [] in
    (get_connection_count s "a" ≡ Metrics.get_connection_count ms "a")
    × (get_last_rtt s "a" ≡ Metrics.get_last_rtt ms "a")
stores-agree_example = stores-agree history "sa" "a"

counts : (get_connection_count (increment_connections "a" (new_store "sa")) "a") ≡ 1
unfolding get_connection_count increment_connections new_store lookup insert
counts = refl

totals :
    let s = record_bytes 10 20 (record_error "a" (increment_connections "a" (new_store "sa"))) in
    s.global
    ≡ record { total_connections = 1; bytes_sent = 10; bytes_received = 20; connection_errors = 1 }
unfolding record_bytes record_error increment_connections new_store
totals = refl

exported :
    backend_lines whole
      (λ x. "3.00")
      "sa"
      (
        "a",
        record {
          active_connections = 1;
          total_connections = 21;
          last_rtt_ms = 4;
          rtt_sum_ms = 6;
          rtt_count = 2;
          connection_errors = 0;
        },
      )
    ≡ "edgeproxy_backend_connections_active{region=\"sa\",backend=\"a\"} 1\nedgeproxy_backend_connections_total{region=\"sa\",backend=\"a\"} 21\nedgeproxy_backend_rtt_ms{region=\"sa\",backend=\"a\"} 4\nedgeproxy_backend_rtt_avg_ms{region=\"sa\",backend=\"a\"} 3.00\nedgeproxy_backend_errors_total{region=\"sa\",backend=\"a\"} 0\n"
unfolding backend_lines display
exported = refl
