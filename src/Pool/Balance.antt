-- ===== src/Pool/Balance.antt =====
-- The pool's counts against the connections that its callers hold.
use edgeproxy.Prelude.{
  dec64, ℕ, suc, ◌+◌, ◌≤◌, ◌<◌, ◌≡◌, Bool, String, List, [], ◌∷◌, ◌++◌, Option, none, some, u64_mod,
  length, length-append, length-retain-le, retain, string_key, All, arith,
}
use edgeproxy.Pool.{
  PoolConfig, PooledConnection, BackendPool, new_pool, pool_exhausted, Acquired, ok, err, Attempt,
  connected, refused, timed_out, pop_valid, connect, acquire_from, release_to, cleanup_pool, touch,
}

-- A backend's pool whose callers hold `n` connections.
pub record PoolOk (cfg : PoolConfig) (id : String) (n : ℕ) (b : BackendPool) : Type 0 where
  pub counted : b.in_use ≡ n
  pub bounded : length b.connections + n ≤ cfg.max_connections
  pub belong : All (λ c. c.backend_id ≡ id) b.connections

-- After `acquire`: the caller holds one more, of this backend; or an error, and exhaustion only if
-- the callers hold all that the configuration allows.
abbrev pub AcquiredOk : PoolConfig → String → ℕ → BackendPool × Acquired → Type 0
AcquiredOk cfg id n (b, ok c) = PoolOk cfg id (suc n) b × (c.backend_id ≡ id)
AcquiredOk cfg id n (b, err pool_exhausted) = PoolOk cfg id n b × (n ≡ cfg.max_connections)
AcquiredOk cfg id n (b, err e) = PoolOk cfg id n b

-- What `pop_valid` gives comes from the queue.
abbrev Popped : PoolConfig → String → ℕ → Option (PooledConnection × List PooledConnection) → Type 0
Popped cfg id k none = Unit {0}
Popped cfg id k (some (c, rest)) =
    (length rest + 1 ≤ k) × (c.backend_id ≡ id) × All (λ d. d.backend_id ≡ id) rest

Popped-mono :
    (cfg : PoolConfig) (id : String) (k : ℕ) (o : Option (PooledConnection × List PooledConnection))
    → Popped cfg id k o
    → Popped cfg id (suc k) o
Popped-mono cfg id k none p = tt
Popped-mono cfg id k (some (c, rest)) (h, e, a) = (omega arith, e, a)

pop_valid-Popped :
    (cfg : PoolConfig) (id : String) (now : ℕ) (cs : List PooledConnection)
    → All (λ c. c.backend_id ≡ id) cs
    → Popped cfg id (length cs) (pop_valid cfg now cs)
unfolding pop_valid
pop_valid-Popped cfg id now [] a = tt
pop_valid-Popped cfg id now (c ∷ cs) a = ground (
  arith,
  Popped-mono cfg id (length cs) (pop_valid cfg now cs),
  pop_valid-Popped cfg id now cs a.1,
)

module _ (cfg : PoolConfig) (id : String) (fits : cfg.max_connections < u64_mod) where
  pub connect-AcquiredOk :
      (n now : ℕ) (attempt : Attempt) (b : BackendPool)
      → PoolOk cfg id n b
      → AcquiredOk cfg id n (connect cfg id now attempt (record b { connections = [] }))
  unfolding connect
  connect-AcquiredOk n now (connected s) b v = ground arith
  connect-AcquiredOk n now (refused e) b v = ground arith
  connect-AcquiredOk n now timed_out b v = ground arith

  pub acquire_from-AcquiredOk :
      (n now : ℕ) (attempt : Attempt) (b : BackendPool)
      → PoolOk cfg id n b
      → AcquiredOk cfg id n (acquire_from cfg id now attempt b)
  unfolding acquire_from
  acquire_from-AcquiredOk n now attempt b v = ground (
    arith,
    pop_valid-Popped cfg id now b.connections v.belong,
    connect-AcquiredOk n now attempt b v,
  )

  All-snoc :
      (cs : List PooledConnection) (c : PooledConnection)
      → All (λ d. d.backend_id ≡ id) cs
      → c.backend_id ≡ id
      → All (λ d. d.backend_id ≡ id) (cs ++ c ∷ [])
  All-snoc [] c a e = (e, tt)
  All-snoc (d ∷ cs) c a e = (a.0, All-snoc cs c a.1 e)

  pub release_to-PoolOk :
      (n now : ℕ) (c : PooledConnection) (b : BackendPool)
      → PoolOk cfg id (suc n) b
      → c.backend_id ≡ id
      → PoolOk cfg id n (release_to cfg now c b)
  unfolding release_to
  release_to-PoolOk n now c b v e = ground (
    arith,
    length-append b.connections (touch now c ∷ []),
    All-snoc b.connections (touch now c) v.belong,
  )

  retain-belong :
      (p : PooledConnection → Bool) (cs : List PooledConnection)
      → All (λ c. c.backend_id ≡ id) cs
      → All (λ c. c.backend_id ≡ id) (retain p cs)
  retain-belong p [] a = tt
  retain-belong p (c ∷ cs) a = ground (arith, retain-belong p cs a.1)

  pub cleanup_pool-PoolOk :
      (n now : ℕ) (b : BackendPool) → PoolOk cfg id n b → PoolOk cfg id n (cleanup_pool cfg now b)
  unfolding cleanup_pool
  cleanup_pool-PoolOk n now b v = record {
    counted = v.counted;
    bounded = omega (arith, length-retain-le {0} _ b.connections);
    belong = retain-belong _ b.connections v.belong;
  }

  pub discard-PoolOk :
      (n : ℕ) (b : BackendPool)
      → PoolOk cfg id (suc n) b
      → PoolOk cfg id n (record b { in_use = dec64 b.in_use })
  discard-PoolOk n b v = ground arith

  pub new_pool-PoolOk : (addr : String) → PoolOk cfg id 0 (new_pool addr)
  unfolding new_pool
  new_pool-PoolOk addr = ground arith
