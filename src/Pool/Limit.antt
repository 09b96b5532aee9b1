-- ===== src/Pool/Limit.antt =====
-- Every history of acquiring, releasing, discarding and cleaning keeps a pool within its limit.
use mathlib.Core.Path.{subst}
use edgeproxy.Prelude.{
  ℕ, ◌+◌, ◌≤◌, ◌<◌, ◌≡◌, refl, String, List, [], some, u64_mod, lookup, length, string_key, arith,
  ap, ◌∙◌,
}
use edgeproxy.Pool.{
  PoolConfig, BackendPool, pool_exhausted, connect_error, connect_timeout, Acquired, ok, err,
  Attempt, new_pools, acquire,
}
use edgeproxy.Pool.Balance.{PoolOk, AcquiredOk, acquire_from-AcquiredOk}
use edgeproxy.Pool.World.{World, held_of, Event, run, EntryOk, Balanced}
use edgeproxy.Pool.Histories.{created-PoolOk, run-Balanced}

-- A new pool, with no connection held.
abbrev pub start : PoolConfig → World
start cfg = record { pool = new_pools cfg; held = [] }

start-Balanced : (cfg : PoolConfig) → Balanced (start cfg)
unfolding new_pools lookup
start-Balanced cfg id = refl

start_config : (cfg : PoolConfig) → (start cfg).pool.config ≡ cfg
unfolding new_pools
start_config cfg = refl

full_of :
    (cfg : PoolConfig) (id : String) (n : ℕ) (r : BackendPool × Acquired)
    → AcquiredOk cfg id n r
    → r.1 ≡ err pool_exhausted
    → n ≡ cfg.max_connections
full_of cfg id n (b, ok c) v e = cc
full_of cfg id n (b, err pool_exhausted) (v, full) e = full
full_of cfg id n (b, err (connect_error t)) v e = cc
full_of cfg id n (b, err connect_timeout) v e = cc

-- After every history of calls of `acquire`, `release`, `discard` and the cleanup, whatever the
-- connection attempts come to, the `in_use` of a backend's pool is the number of its connections that
-- callers hold, and these and the idle ones are at most `max_connections` together.
pub connections_bounded :
    (cfg : PoolConfig) (es : List Event) (id : String) {b : BackendPool}
    → cfg.max_connections < u64_mod
    → lookup id (run (start cfg) es).pool.pools ≡ some b
    → (b.in_use ≡ held_of id (run (start cfg) es).held)
      × (length b.connections + held_of id (run (start cfg) es).held ≤ cfg.max_connections)
connections_bounded cfg es id {b} fits found =
    let w = run (start cfg) es in
    let (bal, same) =
      run-Balanced cfg es (start cfg) fits (start_config cfg) (start-Balanced cfg) in
    let v : PoolOk w.pool.config id (held_of id w.held) b =
      subst (EntryOk w.pool.config id (held_of id w.held)) found (bal id) in
    let limit : w.pool.config.max_connections ≡ cfg.max_connections =
      ap (λ (c : PoolConfig). c.max_connections) same in
    (v.counted, omega (arith, v.bounded, limit))

-- After such a history `acquire` reports exhaustion only if callers hold `max_connections` of the
-- backend's connections.
pub exhausted_when_full :
    (cfg : PoolConfig) (es : List Event) (now : ℕ) (id addr : String) (attempt : Attempt)
    → cfg.max_connections < u64_mod
    → (acquire (run (start cfg) es).pool now id addr attempt).1 ≡ err pool_exhausted
    → held_of id (run (start cfg) es).held ≡ cfg.max_connections
unfolding acquire
exhausted_when_full cfg es now id addr attempt fits e =
    let w = run (start cfg) es in
    let (bal, same) =
      run-Balanced cfg es (start cfg) fits (start_config cfg) (start-Balanced cfg) in
    let limit : w.pool.config.max_connections ≡ cfg.max_connections =
      ap (λ (c : PoolConfig). c.max_connections) same in
    let small : w.pool.config.max_connections < u64_mod = omega (arith, limit) in
    full_of w.pool.config id _ _
      (acquire_from-AcquiredOk w.pool.config id small (held_of id w.held) now attempt _
        (created-PoolOk w small bal id addr))
      e
    ∙ limit
