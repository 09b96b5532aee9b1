-- ===== src/Pool/Cleared.antt =====
-- src/infrastructure/connection_pool.rs: `clear` while connections are held.
use edgeproxy.Prelude.{
  ℕ, ◌-◌, ◌<◌, ◌≡◌, String, [], none, some, lookup, u64_mod, dec64, arith, string_key,
  lookup-insert_self, ap, ◌∙◌,
}
use edgeproxy.Pool.{
  PoolConfig, PooledConnection, BackendPool, pool_exhausted, err, Attempt, connected, refused,
  timed_out, ConnectionPool, get_or_create_pool, store, pop_valid, connect, acquire_from, acquire,
  discard, clear, new_pool, total_connections,
}

abbrev wrapped_pool : String → BackendPool
wrapped_pool addr = record { connections = []; in_use = u64_mod - 1; addr = addr }

module _ (p : ConnectionPool) (id addr : String) where
  acquire-clear :
      (now : ℕ) (reason : String)
      → (acquire (clear p) now id addr (refused reason)).0 ≡ store (clear p) id (new_pool addr)
  unfolding acquire clear get_or_create_pool lookup acquire_from pop_valid connect new_pool store
  acquire-clear now reason = ground arith

discard-found :
    (p : ConnectionPool) (c : PooledConnection) (b : BackendPool)
    → lookup c.backend_id p.pools ≡ some b
    → discard p c ≡ store p c.backend_id (record b { in_use = dec64 b.in_use })
unfolding discard
discard-found p c b found = rw (found, discard)

acquire-found :
    (p : ConnectionPool) (id addr : String) (b : BackendPool) (now : ℕ) (attempt : Attempt)
    → lookup id p.pools ≡ some b
    → (acquire p now id addr attempt).1 ≡ (acquire_from p.config id now attempt b).1
unfolding acquire get_or_create_pool
acquire-found p id addr b now attempt found =
    ap
      (λ o.
        (acquire_from p.config id now attempt
          (elim o as (λ _. BackendPool) [ none ↦ new_pool addr | some d ↦ d ])).1)
      found

acquire_from-wrapped :
    (cfg : PoolConfig) (id addr : String) (now : ℕ) (attempt : Attempt)
    → cfg.max_connections < u64_mod
    → (acquire_from cfg id now attempt (wrapped_pool addr)).1 ≡ err pool_exhausted
unfolding acquire_from pop_valid connect total_connections
acquire_from-wrapped cfg id addr now (connected s) fits = ground arith
acquire_from-wrapped cfg id addr now (refused r) fits = ground arith
acquire_from-wrapped cfg id addr now timed_out fits = ground arith

acquire-wrapped :
    (q : ConnectionPool) (id addr : String) (now : ℕ) (attempt : Attempt)
    → q.config.max_connections < u64_mod
    → (acquire (store q id (wrapped_pool addr)) now id addr attempt).1 ≡ err pool_exhausted
unfolding store
acquire-wrapped q id addr now attempt fits =
    acquire-found (store q id (wrapped_pool addr)) id addr (wrapped_pool addr) now attempt
      (lookup-insert_self id (wrapped_pool addr) q.pools)
    ∙ acquire_from-wrapped q.config id addr now attempt fits

-- If the pools are cleared while a connection is held, and a connection attempt to its backend is
-- then refused, discarding the connection leaves the backend's pool exhausted: the next `acquire` of
-- the backend reports exhaustion, whatever the attempt and the limit below 2^64 are.
pub clear-discard-acquire :
    (p : ConnectionPool) (held : PooledConnection) (addr reason : String) (t u : ℕ)
    (attempt : Attempt)
    → p.config.max_connections < u64_mod
    → (acquire
        (discard (acquire (clear p) t held.backend_id addr (refused reason)).0 held)
        u
        held.backend_id
        addr
        attempt).1
      ≡ err pool_exhausted
unfolding clear store new_pool
clear-discard-acquire p held addr reason t u attempt fits =
    let id = held.backend_id in
    let emptied = store (clear p) id (new_pool addr) in
    let wrapped =
      ap (λ q. discard q held) (acquire-clear p id addr t reason)
      ∙ discard-found emptied held (new_pool addr)
          (lookup-insert_self id (new_pool addr) (clear p).pools) in
    ap (λ q. (acquire q u id addr attempt).1) wrapped
    ∙ acquire-wrapped emptied id addr u attempt fits
