-- ===== src/Prometheus.antt =====
-- src/adapters/outbound/prometheus_metrics_store.rs: the metrics store whose counts are exported as
-- text. An f64 is a field of the interface F64, and `two_places` prints one with two decimals.
pub mod Agreeing
mod Examples
use Prim.Native.String.{◌++◌ as append}
use edgeproxy.Prelude.{
  ℕ, zero, suc, ◌+◌, ◌%◌, ◌/◌, Bool, String, List, [], ◌∷◌, Option, none, some, if◌then◌else◌, ltb,
  nat_beq, lookup, insert, string_key, inc64, u64_mod, map, display,
}
use edgeproxy.Float.{F64}
use edgeproxy.Metrics.{decrement}

pub record AggregatedMetrics : Type 0 where
  pub total_connections : ℕ
  pub bytes_sent : ℕ
  pub bytes_received : ℕ
  pub connection_errors : ℕ

pub record BackendMetrics : Type 0 where
  pub active_connections : ℕ
  pub total_connections : ℕ
  pub last_rtt_ms : ℕ
  pub rtt_sum_ms : ℕ
  pub rtt_count : ℕ
  pub connection_errors : ℕ

abbrev pub new_backend_metrics : BackendMetrics
new_backend_metrics = record {
  active_connections = 0;
  total_connections = 0;
  last_rtt_ms = 0;
  rtt_sum_ms = 0;
  rtt_count = 0;
  connection_errors = 0;
}

unfoldable pub avg_rtt_ms : (f : F64) → BackendMetrics → f.F
avg_rtt_ms f m =
    if nat_beq m.rtt_count 0
    then f.of_nat 0
    else f.div (f.of_nat m.rtt_sum_ms) (f.of_nat m.rtt_count)

pub record PrometheusMetricsStore : Type 0 where
  pub backends : List (String × BackendMetrics)
  pub global : AggregatedMetrics
  pub region : String

unfoldable pub new_store : String → PrometheusMetricsStore
new_store region = record {
  backends = [];
  global = record {
    total_connections = 0;
    bytes_sent = 0;
    bytes_received = 0;
    connection_errors = 0;
  };
  region = region;
}

unfoldable pub default_store : PrometheusMetricsStore
unfolding new_store
default_store = new_store "unknown"

-- The metrics of a backend, and what a call stores in their place: `entry(id).or_insert_with(…)`.
unfoldable pub get_or_create : String → PrometheusMetricsStore → BackendMetrics
get_or_create id s = elim (lookup id s.backends) [ none ↦ new_backend_metrics | some m ↦ m ]

unfoldable pub put : String → BackendMetrics → PrometheusMetricsStore → PrometheusMetricsStore
put id m s = record s { backends = insert id m s.backends }

unfoldable pub record_error : String → PrometheusMetricsStore → PrometheusMetricsStore
unfolding get_or_create put
record_error id s =
    let m = get_or_create id s in
    put id (record m { connection_errors = inc64 m.connection_errors })
      (record s {
        global = record s.global { connection_errors = inc64 s.global.connection_errors };
      })

unfoldable pub record_bytes : ℕ → ℕ → PrometheusMetricsStore → PrometheusMetricsStore
record_bytes sent received s = record s {
  global = record s.global {
    bytes_sent = (s.global.bytes_sent + sent) % u64_mod;
    bytes_received = (s.global.bytes_received + received) % u64_mod;
  };
}

unfoldable pub backend_ids : PrometheusMetricsStore → List String
backend_ids s = map (λ e. e.0) s.backends

unfoldable pub get_backend_metrics : String → PrometheusMetricsStore → Option BackendMetrics
get_backend_metrics id s = lookup id s.backends

unfoldable pub get_connection_count : PrometheusMetricsStore → String → ℕ
get_connection_count s id = elim (lookup id s.backends) [ none ↦ 0 | some m ↦ m.active_connections ]

unfoldable pub increment_connections : String → PrometheusMetricsStore → PrometheusMetricsStore
unfolding get_or_create put
increment_connections id s =
    let m = get_or_create id s in
    put id
      (record m {
        active_connections = inc64 m.active_connections;
        total_connections = inc64 m.total_connections;
      })
      (record s {
        global = record s.global { total_connections = inc64 s.global.total_connections };
      })

-- The loop is that of the DashMap store; its exchange fails spuriously `failures` times.
unfoldable pub decrement_connections : ℕ → String → PrometheusMetricsStore → PrometheusMetricsStore
unfolding put
decrement_connections failures id s = elim (lookup id s.backends) [
  | none ↦ s
  | some m ↦ put id (record m { active_connections = decrement failures m.active_connections }) s
]

unfoldable pub record_rtt : String → ℕ → PrometheusMetricsStore → PrometheusMetricsStore
unfolding get_or_create put
record_rtt id rtt_ms s =
    let m = get_or_create id s in
    put id
      (record m {
        last_rtt_ms = rtt_ms;
        rtt_sum_ms = (m.rtt_sum_ms + rtt_ms) % u64_mod;
        rtt_count = inc64 m.rtt_count;
      })
      s

unfoldable pub get_last_rtt : PrometheusMetricsStore → String → Option ℕ
get_last_rtt s id = elim (lookup id s.backends) [ none ↦ none | some m ↦ some m.last_rtt_ms ]

-- The lines of the export. The newline of a line is written by `line`.
line : String → String
line t = append t "\n"

header : String → String → String → String
unfolding line
header name help kind =
    append (line (append (append (append "# HELP " name) " ") help))
      (line (append (append (append "# TYPE " name) " ") kind))

global_line : String → String → ℕ → String
unfolding line
global_line name region n =
    line (append (append (append (append name "{region=\"") region) "\"} ") (display n))

backend_line : String → String → String → String → String
unfolding line
backend_line name region id shown = line (
    append
      (append (append (append (append (append name "{region=\"") region) "\",backend=\"") id)
        "\"} ")
      shown)

global_metric : String → String → String → ℕ → String
unfolding header global_line
global_metric name help region n = append (header name help "counter") (global_line name region n)

module _ (f : F64) (two_places : f.F → String) where
  unfoldable pub backend_lines : String → String × BackendMetrics → String
  unfolding backend_line avg_rtt_ms
  backend_lines region (id, m) =
      append
        (backend_line "edgeproxy_backend_connections_active" region id
          (display m.active_connections))
        (append
          (backend_line "edgeproxy_backend_connections_total" region id
            (display m.total_connections))
          (append (backend_line "edgeproxy_backend_rtt_ms" region id (display m.last_rtt_ms)) (
            append
              (backend_line "edgeproxy_backend_rtt_avg_ms" region id (two_places (avg_rtt_ms f m)))
              (backend_line "edgeproxy_backend_errors_total" region id
                (display m.connection_errors)))))

  unfoldable pub all_backend_lines : String → List (String × BackendMetrics) → String
  unfolding backend_lines
  all_backend_lines region [] = ""
  all_backend_lines region (e ∷ es) = append (backend_lines region e) (all_backend_lines region es)

  unfoldable pub export_prometheus : PrometheusMetricsStore → String
  unfolding all_backend_lines header global_metric
  export_prometheus s =
      append
        (global_metric "edgeproxy_connections_total" "Total connections established" s.region
          s.global.total_connections)
        (append
          (global_metric "edgeproxy_bytes_sent_total" "Total bytes sent to backends" s.region
            s.global.bytes_sent)
          (append
            (global_metric "edgeproxy_bytes_received_total" "Total bytes received from backends"
              s.region s.global.bytes_received)
            (append
              (global_metric "edgeproxy_connection_errors_total" "Total connection errors" s.region
                s.global.connection_errors)
              (append
                (header "edgeproxy_backend_connections_active"
                  "Current active connections per backend" "gauge")
                (append
                  (header "edgeproxy_backend_connections_total" "Total connections per backend"
                    "counter")
                  (append
                    (header "edgeproxy_backend_rtt_ms" "Last RTT to backend in milliseconds"
                      "gauge")
                    (append
                      (header "edgeproxy_backend_rtt_avg_ms"
                        "Average RTT to backend in milliseconds" "gauge")
                      (append
                        (header "edgeproxy_backend_errors_total" "Total errors per backend"
                          "counter")
                        (all_backend_lines s.region s.backends)))))))))
