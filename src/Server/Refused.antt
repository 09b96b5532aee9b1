-- ===== src/Server/Refused.antt =====
-- src/adapters/inbound/tcp_server.rs: what a connection leaves when its copying starts, or fails to.
use mathlib.Core.Path.{subst}
use edgeproxy.Prelude.{
  Bool, ℕ, ◌≡◌, true, false, String, Option, none, some, lookup, inc64, if◌then◌else◌, as_millis,
  string_key, ◌==◌, lookup-insert_self, lookup-remove, ==_refl, arith,
}
use edgeproxy.Float.{F64, F64Laws}
use edgeproxy.Net.{IpAddr, SocketAddr, ip_key}
use edgeproxy.Domain.{Backend, Binding}
use edgeproxy.Repository.{RepositoryLaws}
use edgeproxy.Bindings.{drop}
use edgeproxy.Metrics
use edgeproxy.Metrics.{get_connection_count, get_last_rtt, starts, reports, count-apply}
use edgeproxy.Proxy.{ProxyService, clear_binding, record_connection_start, record_rtt}
use edgeproxy.Proxy.Affinity.{Remembers, resolve-Remembers}
use edgeproxy.Proxy.Locality.{LeavesOthers, resolve-others}
use edgeproxy.Server.{
  TcpServer, Answers, Stage, no_backend, unreachable, copying, reach, open_connection, backend_addr,
}

-- The client has no binding, and the counts stay as they were; or it is bound to the backend from
-- now on, whose count is one more and whose round-trip time is the one measured.
abbrev pub Opened : Answers → ℕ → IpAddr → ProxyService → ProxyService × Stage → Type 0
Opened answers now ip s (t, no_backend) =
    (lookup ip t.binding_repo ≡ none) × (t.metrics ≡ s.metrics)
Opened answers now ip s (t, unreachable id) =
    (lookup ip t.binding_repo ≡ none) × (t.metrics ≡ s.metrics)
Opened answers now ip s (t, copying id) =
    ((bound : Binding) × (lookup ip t.binding_repo ≡ some bound)
      × (bound.backend_id ≡ id)
      × (bound.last_seen ≡ now))
    × ((j : String)
        → get_connection_count t.metrics j ≡ (
            if id == j
            then inc64 (get_connection_count s.metrics j)
            else get_connection_count s.metrics j))
    × (get_last_rtt t.metrics id ≡ some (as_millis answers.elapsed))

-- The counts once the start and the round-trip time of a connection are recorded.
pub started_counts :
    (s : ProxyService) (id : String) (rtt_ms : ℕ) (j : String)
    → get_connection_count (record_rtt (record_connection_start s id) id rtt_ms).metrics j ≡ (
        if id == j
        then inc64 (get_connection_count s.metrics j)
        else get_connection_count s.metrics j)
unfolding record_rtt record_connection_start Metrics.apply
started_counts s id rtt_ms j = ground (
  arith,
  count-apply id j starts s.metrics,
  count-apply id j (reports rtt_ms) (Metrics.increment_connections id s.metrics),
)

started_rtt :
    (s : ProxyService) (id : String) (rtt_ms : ℕ)
    → get_last_rtt (record_rtt (record_connection_start s id) id rtt_ms).metrics id ≡ some rtt_ms
unfolding record_rtt get_last_rtt Metrics.record_rtt
started_rtt s id rtt_ms =
    let ms = (record_connection_start s id).metrics in
    rw (
      lookup-insert_self id (record (Metrics.metrics_or_default id ms) { last_rtt_ms = rtt_ms }) ms,
      get_last_rtt,
    )

reach-Opened :
    (answers : Answers) (now : ℕ) (ip : IpAddr) (s : ProxyService)
    (found : ProxyService × Option Backend)
    → Remembers now ip found
    → LeavesOthers ip s found.0
    → Opened answers now ip s (reach answers ip found)
unfolding reach
reach-Opened answers now ip s (t, none) gone others = (gone, others.1)
reach-Opened answers now ip s (t, some b) (well, bound) others =
    go (answers.connects (backend_addr b))
  where
    go :
        (c : Bool)
        → Opened answers now ip s (
            if c
            then (
              record_rtt (record_connection_start t b.id) b.id (as_millis answers.elapsed),
              copying b.id,
            )
            else (clear_binding t ip, unreachable b.id))
    go true = (
      unfold record_rtt record_connection_start in bound,
      (λ j.
          subst
            (λ ms.
              get_connection_count
                (record_rtt (record_connection_start t b.id) b.id
                  (as_millis answers.elapsed)).metrics
                j
              ≡ (if b.id == j
                  then inc64 (get_connection_count ms j)
                  else get_connection_count ms j))
            others.1 (started_counts t b.id (as_millis answers.elapsed) j)),
      started_rtt t b.id (as_millis answers.elapsed),
    )
    go false = (
      unfold clear_binding drop in rw (lookup-remove ip ip t.binding_repo, ==_refl ip),
      unfold clear_binding in others.1,
    )

module _ {f : F64} (laws : F64Laws f) where
  -- A connection that has no healthy backend, or whose backend cannot be reached, leaves its client
  -- with no binding and every connection count as it was. One that is copied leaves the client bound
  -- to its backend from that time on, counts one connection more of that backend and of no other, and
  -- stores its round-trip time. The repository answers by its laws.
  pub open_connection-Opened :
      (answers : Answers) (now : ℕ) (addr : SocketAddr) (s : TcpServer)
      → RepositoryLaws s.proxy_service.backend_repo
      → let done = open_connection f answers now addr s in
        Opened answers now addr.ip s.proxy_service (done.0.proxy_service, done.1)
  unfolding open_connection
  open_connection-Opened answers now addr s r =
      reach-Opened answers now addr.ip s.proxy_service _
        (resolve-Remembers laws s.proxy_service now addr.ip _ r)
        (resolve-others f s.proxy_service now addr.ip _)
