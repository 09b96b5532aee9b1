-- ===== src/Discovery/Registry.antt =====
-- src/adapters/inbound/api_server.rs: what calls of the API make of one backend's entry.
use edgeproxy.Prelude.{
  ℕ, ◌-◌, ◌≡◌, refl, ap, ◌∙◌, Bool, true, false, not, String, List, [], ◌∷◌, Option, none, some,
  if◌then◌else◌, leb, lookup, insert, lookup-insert, lookup-remove, Unique, insert-Unique,
  remove-Unique, passing, keys_where, remove_all-Unique, lookup-remove_where, Duration, from_secs,
  string_key, ◌==◌, arith, Option-cases, inl, inr,
}
use edgeproxy.Discovery.{
  RegisterRequest, RegisteredBackend, ApiState, new_state, registered_by, register, heartbeat,
  deregister, is_expired, cleanup_expired, register_handler, heartbeat_handler, deregister_handler,
}

-- The calls that change the registry, each with its time.
pub data Call : Type 0 where
  registers : ℕ → RegisterRequest → Call
  heartbeats : ℕ → String → Call
  deregisters : String → Call
  cleans : ℕ → Call

unfoldable pub call : ApiState → Call → ApiState
call s (registers now req) = (register_handler s now req).0
call s (heartbeats now id) = (heartbeat_handler s now id).0
call s (deregisters id) = (deregister_handler s id).0
call s (cleans now) = (cleanup_expired s now).0

unfoldable pub call_all : ApiState → List Call → ApiState
call_all s [] = s
call_all s (c ∷ cs) = call_all (call s c) cs

-- The entry of one backend, as a register of its own.
abbrev pub beaten : ℕ → Option RegisteredBackend → Option RegisteredBackend
beaten now none = none
beaten now (some r) = some (record r { last_heartbeat = now })

abbrev pub swept : Duration → ℕ → Option RegisteredBackend → Option RegisteredBackend
swept ttl now none = none
swept ttl now (some r) = if leb ttl (now - r.last_heartbeat) then none else some r

abbrev pub entry_step :
    Duration → String → Option RegisteredBackend → Call → Option RegisteredBackend
entry_step ttl id o (registers now req) = if req.id == id then some (registered_by now req) else o
entry_step ttl id o (heartbeats now k) = if k == id then beaten now o else o
entry_step ttl id o (deregisters k) = if k == id then none else o
entry_step ttl id o (cleans now) = swept ttl now o

abbrev pub entry_run :
    Duration → String → Option RegisteredBackend → List Call → Option RegisteredBackend
entry_run ttl id o [] = o
entry_run ttl id o (c ∷ cs) = entry_run ttl id (entry_step ttl id o c) cs

module _ (s : ApiState) (id : String) where
  heartbeat-entry :
      (now : ℕ) (k : String)
      → lookup id (heartbeat s now k).0.backends
        ≡ (if k == id then beaten now (lookup id s.backends) else lookup id s.backends)
  unfolding heartbeat
  heartbeat-entry now k = elim (Option-cases (lookup k s.backends)) [
    | inl e ↦ rw (e, heartbeat) (ground (arith, e, string_key.eq_of_same k id))
    | inr (r, e) ↦
        rw (e, heartbeat)
          (ground (
            arith,
            e,
            string_key.eq_of_same k id,
            lookup-insert k id (record r { last_heartbeat = now }) s.backends,
          ))
  ]

  cleanup_expired-entry :
      (now : ℕ)
      → Unique s.backends
      → lookup id (cleanup_expired s now).0.backends
        ≡ swept s.heartbeat_ttl now (lookup id s.backends)
  unfolding cleanup_expired is_expired
  cleanup_expired-entry now u =
      lookup-remove_where (is_expired s now) id s.backends u ∙ go (lookup id s.backends)
    where
      go :
          (o : Option RegisteredBackend)
          → passing (λ e. not (is_expired s now e.1)) id o ≡ swept s.heartbeat_ttl now o
      go none = refl
      go (some r) = ground arith

  call-entry :
      (c : Call)
      → Unique s.backends
      → lookup id (call s c).backends ≡ entry_step s.heartbeat_ttl id (lookup id s.backends) c
  unfolding call register_handler heartbeat_handler deregister_handler register deregister
  call-entry (registers now req) u = lookup-insert req.id id (registered_by now req) s.backends
  call-entry (heartbeats now k) u = heartbeat-entry now k
  call-entry (deregisters k) u = lookup-remove k id s.backends
  call-entry (cleans now) u = cleanup_expired-entry now u

heartbeat-Unique :
    (s : ApiState) (now : ℕ) (k : String)
    → Unique s.backends
    → Unique (heartbeat s now k).0.backends
unfolding heartbeat
heartbeat-Unique s now k u = go (lookup k s.backends)
  where
    go :
        (o : Option RegisteredBackend)
        → Unique
            (elim o as (λ _. ApiState × Bool) [
              | none ↦ (s, false)
              | some r ↦ (
                record s { backends = insert k (record r { last_heartbeat = now }) s.backends },
                true,
              )
            ]).0.backends
    go none = u
    go (some r) = insert-Unique k (record r { last_heartbeat = now }) s.backends u

pub call-Unique : (s : ApiState) (c : Call) → Unique s.backends → Unique (call s c).backends
unfolding call register_handler heartbeat_handler deregister_handler register deregister heartbeat
    cleanup_expired
call-Unique s (registers now req) u = insert-Unique req.id (registered_by now req) s.backends u
call-Unique s (heartbeats now k) u = heartbeat-Unique s now k u
call-Unique s (deregisters k) u = remove-Unique k s.backends u
call-Unique s (cleans now) u =
    remove_all-Unique (keys_where (is_expired s now) s.backends) s.backends u

pub call-ttl : (s : ApiState) (c : Call) → (call s c).heartbeat_ttl ≡ s.heartbeat_ttl
unfolding call register_handler heartbeat_handler deregister_handler register deregister heartbeat
    cleanup_expired
call-ttl s (registers now req) = refl
call-ttl s (heartbeats now k) = ground arith
call-ttl s (deregisters k) = refl
call-ttl s (cleans now) = refl

pub call_all-entry :
    (cs : List Call) (s : ApiState) (id : String)
    → Unique s.backends
    → lookup id (call_all s cs).backends ≡ entry_run s.heartbeat_ttl id (lookup id s.backends) cs
unfolding call_all
call_all-entry [] s id u = refl
call_all-entry (c ∷ cs) s id u =
    call_all-entry cs (call s c) id (call-Unique s c u)
    ∙ ap (λ ttl. entry_run ttl id (lookup id (call s c).backends) cs) (call-ttl s c)
    ∙ ap (λ o. entry_run s.heartbeat_ttl id o cs) (call-entry s id c u)

-- After every history of calls of the API and of the cleanup on a new registry, the entry of a backend
-- is what its own registrations, heartbeats and deregistrations and the cleanups make of it alone: a
-- registration writes it anew, a heartbeat renews it if it is there, and a deregistration, or a cleanup
-- at least the time to live after its last heartbeat, removes it.
pub registry-entry :
    (ttl : ℕ) (cs : List Call) (id : String)
    → lookup id (call_all (new_state ttl) cs).backends ≡ entry_run (from_secs ttl) id none cs
unfolding new_state lookup
registry-entry ttl cs id = call_all-entry cs (new_state ttl) id tt
