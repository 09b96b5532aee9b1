-- ===== src/Discovery/Beating.antt =====
-- src/adapters/inbound/api_server.rs: a backend that keeps sending heartbeats.
use mathlib.Core.Path.{subst}
use edgeproxy.Prelude.{
  ℕ, ◌-◌, ◌<◌, ◌≡◌, refl, sym, ap, ◌∙◌, Bool, true, false, String, List, [], ◌∷◌, some,
  if◌then◌else◌, leb, lookup, lookup-insert_self, Unique, insert-Unique, Duration, from_secs,
  string_key, ◌==◌, arith,
}
use edgeproxy.Discovery.{
  RegisterRequest, RegisteredBackend, BackendStatus, ApiState, new_state, registered_by, register,
  register_handler, get_backend_handler, found, status_of, in_time,
}
use edgeproxy.Discovery.Registry.{
  Call, registers, heartbeats, deregisters, cleans, call, call_all, entry_run, call_all-entry,
  call-Unique, call-ttl,
}

-- The calls keep `id` in time: no registration or deregistration of it, and each cleanup within the
-- time to live after its last heartbeat.
abbrev pub InTime : Duration → String → ℕ → List Call → Type 0
InTime ttl id last [] = Unit {0}
InTime ttl id last (registers now req ∷ cs) = ((req.id == id) ≡ false) × InTime ttl id last cs
InTime ttl id last (heartbeats now k ∷ cs) = InTime ttl id (if k == id then now else last) cs
InTime ttl id last (deregisters k ∷ cs) = ((k == id) ≡ false) × InTime ttl id last cs
InTime ttl id last (cleans now ∷ cs) = (now - last < ttl) × InTime ttl id last cs

abbrev pub last_beat : String → ℕ → List Call → ℕ
last_beat id last [] = last
last_beat id last (heartbeats now k ∷ cs) = last_beat id (if k == id then now else last) cs
last_beat id last (_ ∷ cs) = last_beat id last cs

entry_run-beats :
    (ttl : Duration) (id : String) (cs : List Call) (r : RegisteredBackend)
    → InTime ttl id r.last_heartbeat cs
    → entry_run ttl id (some r) cs
      ≡ some (record r { last_heartbeat = last_beat id r.last_heartbeat cs })
entry_run-beats ttl id [] r v = refl
entry_run-beats ttl id (registers now req ∷ cs) r (other, v) =
    rw other (entry_run-beats ttl id cs r v)
entry_run-beats ttl id (heartbeats now k ∷ cs) r v =
    go (k == id) v (λ q w. entry_run-beats ttl id cs q w)
  where
    go :
        (b : Bool)
        → InTime ttl id (if b then now else r.last_heartbeat) cs
        → ((q : RegisteredBackend)
            → InTime ttl id q.last_heartbeat cs
            → entry_run ttl id (some q) cs
              ≡ some (record q { last_heartbeat = last_beat id q.last_heartbeat cs }))
        → entry_run ttl id (if b then some (record r { last_heartbeat = now }) else some r) cs
          ≡ some
              (record r { last_heartbeat = last_beat id (if b then now else r.last_heartbeat) cs })
    go true w rest = rest (record r { last_heartbeat = now }) w
    go false w rest = rest r w
entry_run-beats ttl id (deregisters k ∷ cs) r (other, v) = rw other (entry_run-beats ttl id cs r v)
entry_run-beats ttl id (cleans now ∷ cs) r (soon, v) =
    let fresh : leb ttl (now - r.last_heartbeat) ≡ false = ground (arith, soon) in
    rw fresh (entry_run-beats ttl id cs r v)

call_all-Unique :
    (cs : List Call) (s : ApiState) → Unique s.backends → Unique (call_all s cs).backends
unfolding call_all
call_all-Unique [] s u = u
call_all-Unique (c ∷ cs) s u = call_all-Unique cs (call s c) (call-Unique s c u)

call_all-ttl : (cs : List Call) (s : ApiState) → (call_all s cs).heartbeat_ttl ≡ s.heartbeat_ttl
unfolding call_all
call_all-ttl [] s = refl
call_all-ttl (c ∷ cs) s = call_all-ttl cs (call s c) ∙ call-ttl s c

get_backend_handler-found :
    (s : ApiState) (now : ℕ) (id : String) (r : RegisteredBackend)
    → lookup id s.backends ≡ some r
    → get_backend_handler s now id ≡ found (status_of s now r)
unfolding get_backend_handler
get_backend_handler-found s now id r e = rw (e, get_backend_handler)

status_of_healthy :
    (s : ApiState) (now : ℕ) (r : RegisteredBackend)
    → now - r.last_heartbeat < s.heartbeat_ttl
    → (status_of s now r).healthy ≡ true
unfolding status_of in_time
status_of_healthy s now r soon = ground (arith, soon)

-- The entry of a backend that was kept in time since it registered.
entry_kept :
    (s : ApiState) (cs : List Call) (t : ℕ) (req : RegisterRequest)
    → Unique s.backends
    → InTime s.heartbeat_ttl req.id t cs
    → lookup req.id (call_all (register_handler s t req).0 cs).backends
      ≡ some (record (registered_by t req) { last_heartbeat = last_beat req.id t cs })
unfolding register_handler register registered_by
entry_kept s cs t req u v =
    call_all-entry cs (register_handler s t req).0 req.id
      (insert-Unique req.id (registered_by t req) s.backends u)
    ∙ ap (λ o. entry_run s.heartbeat_ttl req.id o cs)
        (lookup-insert_self req.id (registered_by t req) s.backends)
    ∙ entry_run-beats s.heartbeat_ttl req.id cs (registered_by t req) v

call_all-new :
    (ttl : ℕ) (cs : List Call)
    → Unique (call_all (new_state ttl) cs).backends
      × ((call_all (new_state ttl) cs).heartbeat_ttl ≡ from_secs ttl)
unfolding new_state
call_all-new ttl cs = (call_all-Unique cs (new_state ttl) tt, call_all-ttl cs (new_state ttl))

register_handler-ttl :
    (s : ApiState) (t : ℕ) (req : RegisterRequest)
    → (register_handler s t req).0.heartbeat_ttl ≡ s.heartbeat_ttl
unfolding register_handler register
register_handler-ttl s t req = refl

-- A backend that registers, whatever calls came before, and is then kept in time by its heartbeats, is
-- found by a request less than the time to live after its last heartbeat, and found healthy, whatever
-- other backends do and whenever the cleanup runs.
pub beating-found :
    (ttl : ℕ) (earlier cs : List Call) (t now : ℕ) (req : RegisterRequest)
    → InTime (from_secs ttl) req.id t cs
    → now - last_beat req.id t cs < from_secs ttl
    → (status : BackendStatus) × (get_backend_handler
          (call_all (register_handler (call_all (new_state ttl) earlier) t req).0 cs)
          now
          req.id
        ≡ found status)
      × (status.healthy ≡ true)
beating-found ttl earlier cs t now req v soon =
    let first = call_all (new_state ttl) earlier in
    let s = call_all (register_handler first t req).0 cs in
    let kept : RegisteredBackend = record (registered_by t req) {
      last_heartbeat = last_beat req.id t cs;
    } in
    let (unique, same_ttl) = call_all-new ttl earlier in
    let entry =
      entry_kept first cs t req unique (subst (λ d. InTime d req.id t cs) (sym same_ttl) v) in
    let whole_ttl : s.heartbeat_ttl ≡ from_secs ttl =
      call_all-ttl cs (register_handler first t req).0
      ∙ register_handler-ttl first t req
      ∙ same_ttl in
    (
      status_of s now kept,
      get_backend_handler-found s now req.id kept entry,
      status_of_healthy s now kept
          (subst (λ d. now - last_beat req.id t cs < d) (sym whole_ttl) soon),
    )
