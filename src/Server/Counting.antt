-- ===== src/Server/Counting.antt =====
-- src/adapters/inbound/tcp_server.rs: the connections that are copied at one time, each served by its
-- own task, and the connection counts.
use edgeproxy.Prelude.{
  ℕ, zero, suc, ◌+◌, ◌-◌, ◌<◌, ◌≤◌, ◌≡◌, refl, Bool, true, false, String, List, [], ◌∷◌, Option,
  none, some, length, inc64, ap, lookup, as_millis, if◌then◌else◌, string_key, ◌==◌, ◌∙◌, arith,
  u64_mod,
}
use edgeproxy.Float.{F64}
use edgeproxy.Net.{IpAddr, SocketAddr}
use edgeproxy.Domain.{Backend}
use edgeproxy.Proxy.Locality.{resolve-others}
use edgeproxy.Metrics.{get_connection_count, ends, count-apply, decrement_connections}
use edgeproxy.Metrics
use edgeproxy.Proxy.{
  ProxyService, record_connection_start, record_connection_end, record_rtt, clear_binding,
}
use edgeproxy.Server.{
  TcpServer, Answers, Stage, no_backend, unreachable, copying, open_connection, close_connection,
  reach, backend_addr,
}
use edgeproxy.Server.Refused.{started_counts}

-- A client connects, or the copying of the live connection at a position ends.
pub data Event : Type 0 where
  opens : Answers → ℕ → SocketAddr → Event
  closes : ℕ → ℕ → Event

-- The element at a position, and the others.
unfoldable pub take_at : ℕ → List String → Option (String × List String)
take_at k [] = none
take_at zero (x ∷ xs) = some (x, xs)
take_at (suc k) (x ∷ xs) = elim (take_at k xs) [ none ↦ none | some t ↦ some (t.0, x ∷ t.1) ]

-- The backends of the connections that are live, once one more came as far as that.
abbrev pub join_live : Stage → List String → List String
join_live (copying id) live = id ∷ live
join_live (unreachable id) live = live
join_live no_backend live = live

module _ (f : F64) where
  unfoldable pub event : Event → TcpServer × List String → TcpServer × List String
  event (opens answers now addr) (s, live) =
      let (t, stage) = open_connection f answers now addr s in (t, join_live stage live)
  event (closes failures k) (s, live) = elim (take_at k live) [
    | none ↦ (s, live)
    | some t ↦ (close_connection failures (copying t.0) s, t.1)
  ]

  unfoldable pub events : List Event → TcpServer × List String → TcpServer × List String
  events [] w = w
  events (e ∷ es) w = events es (event e w)

unfoldable pub occurrences : String → List String → ℕ
occurrences j [] = 0
occurrences j (x ∷ xs) = (if x == j then 1 else 0) + occurrences j xs

occurrences-le-length : (j : String) (xs : List String) → occurrences j xs ≤ length xs
unfolding occurrences
occurrences-le-length j [] = omega arith
occurrences-le-length j (x ∷ xs) = ground (arith, occurrences-le-length j xs)

-- What `take_at` takes is one occurrence of itself.
abbrev Taken : String → List String → Option (String × List String) → Type 0
Taken j xs none = Unit {0}
Taken j xs (some t) =
    (occurrences j xs ≡ (if t.0 == j then 1 else 0) + occurrences j t.1)
    × (length xs ≡ suc (length t.1))

take_at-Taken : (k : ℕ) (j : String) (xs : List String) → Taken j xs (take_at k xs)
unfolding take_at occurrences
take_at-Taken k j [] = tt
take_at-Taken zero j (x ∷ xs) = (refl, refl)
take_at-Taken (suc k) j (x ∷ xs) = go (take_at k xs) (take_at-Taken k j xs)
  where
    go :
        (o : Option (String × List String))
        → Taken j xs o
        → Taken j (x ∷ xs) (elim o [ none ↦ none | some t ↦ some (t.0, x ∷ t.1) ])
    go none h = tt
    go (some t) h = (omega (arith, h.0), omega (arith, h.1))

-- The count of each backend is the number of live connections to it, and there are so many at most.
abbrev Counted : ℕ → TcpServer × List String → Type 0
Counted n (s, live) =
    ((j : String) → get_connection_count s.proxy_service.metrics j ≡ occurrences j live)
    × (length live ≤ n)

-- The counts after a stage, from those before.
abbrev CountsOne : Stage → ProxyService → ProxyService → Type 0
CountsOne (copying id) s t =
    (j : String)
    → get_connection_count t.metrics j ≡ (
        if id == j
        then inc64 (get_connection_count s.metrics j)
        else get_connection_count s.metrics j)
CountsOne (unreachable id) s t = t.metrics ≡ s.metrics
CountsOne no_backend s t = t.metrics ≡ s.metrics

reach-CountsOne :
    (answers : Answers) (ip : IpAddr) (s : ProxyService) (found : ProxyService × Option Backend)
    → found.0.metrics ≡ s.metrics
    → CountsOne (reach answers ip found).1 s (reach answers ip found).0
unfolding reach
reach-CountsOne answers ip s (t, none) e = e
reach-CountsOne answers ip s (t, some b) e = go (answers.connects (backend_addr b))
  where
    reached : ProxyService
    reached = record_rtt (record_connection_start t b.id) b.id (as_millis answers.elapsed)

    go :
        (c : Bool)
        → let r : ProxyService × Stage =
            if c then (reached, copying b.id) else (clear_binding t ip, unreachable b.id) in
          CountsOne r.1 s r.0
    go true = λ j. rw (← e) (started_counts t b.id (as_millis answers.elapsed) j)
    go false = unfold clear_binding in e

open_connection-CountsOne :
    (f : F64) (answers : Answers) (now : ℕ) (addr : SocketAddr) (s : TcpServer)
    → let done = open_connection f answers now addr s in
      CountsOne done.1 s.proxy_service done.0.proxy_service
unfolding open_connection
open_connection-CountsOne f answers now addr s =
    reach-CountsOne answers addr.ip s.proxy_service _
      (resolve-others f s.proxy_service now addr.ip _).1

join_live-Counted :
    (n : ℕ) (stage : Stage) (s t : TcpServer) (live : List String)
    → suc n < u64_mod
    → CountsOne stage s.proxy_service t.proxy_service
    → Counted n (s, live)
    → Counted (suc n) (t, join_live stage live)
unfolding occurrences
join_live-Counted n (copying id) s t live h one (same, few) =
    ((λ j. ground (arith, one j, same j, occurrences-le-length j live)), omega arith)
join_live-Counted n (unreachable id) s t live h one (same, few) =
    ((λ j. ap (λ ms. get_connection_count ms j) one ∙ same j), omega arith)
join_live-Counted n no_backend s t live h one (same, few) =
    ((λ j. ap (λ ms. get_connection_count ms j) one ∙ same j), omega arith)

close_connection-counts :
    (failures : ℕ) (id : String) (s : TcpServer) (j : String)
    → let before = get_connection_count s.proxy_service.metrics j in
      get_connection_count (close_connection failures (copying id) s).proxy_service.metrics j
      ≡ (if id == j then before - 1 else before)
unfolding close_connection record_connection_end Metrics.apply
close_connection-counts failures id s j = count-apply id j (ends failures) s.proxy_service.metrics

module _ (f : F64) where
  event-Counted :
      (n : ℕ) (e : Event) (w : TcpServer × List String)
      → suc n < u64_mod
      → Counted n w
      → Counted (suc n) (event f e w)
  unfolding event
  event-Counted n (opens answers now addr) (s, live) h c =
      join_live-Counted n (open_connection f answers now addr s).1 s
        (open_connection f answers now addr s).0 live h
        (open_connection-CountsOne f answers now addr s) c
  event-Counted n (closes failures k) (s, live) h (same, few) =
      go (take_at k live) (λ j. take_at-Taken k j live)
    where
      go :
          (o : Option (String × List String))
          → ((j : String) → Taken j live o)
          → Counted (suc n) (elim o as (λ _. TcpServer × List String) [
            | none ↦ (s, live)
            | some t ↦ (close_connection failures (copying t.0) s, t.1)
          ])
      go none taken = (same, omega arith)
      go (some t) taken = (
        (λ j. ground (arith, close_connection-counts failures t.0 s j, same j, taken j)),
        omega (arith, (taken t.0).1),
      )

  events_from :
      (n : ℕ) (es : List Event) (w : TcpServer × List String) (j : String)
      → n + length es < u64_mod
      → Counted n w
      → get_connection_count (events f es w).0.proxy_service.metrics j
        ≡ occurrences j (events f es w).1
  unfolding events
  events_from n [] w j h c = c.0 j
  events_from n (e ∷ es) w j h c =
      events_from (suc n) es (event f e w) j (omega arith) (event-Counted n e w (omega arith) c)

  -- Through every order of connections that open and connections that end, of any clients and
  -- backends, fewer than 2^64 in all, the connection count of each backend is the number of
  -- connections to it that are being copied; from a server with no connection.
  pub events-Counted :
      (es : List Event) (s : TcpServer) (j : String)
      → length es < u64_mod
      → s.proxy_service.metrics ≡ []
      → get_connection_count (events f es (s, [])).0.proxy_service.metrics j
        ≡ occurrences j (events f es (s, [])).1
  unfolding occurrences get_connection_count lookup
  events-Counted es s j h e = events_from 0 es (s, []) j (omega arith) ((λ i. rw e), omega arith)
