-- ===== src/Pool/Histories.antt =====
-- Each call keeps the pools and the connections held in balance.
use mathlib.Core.Path.{subst}
use edgeproxy.Prelude.{
  dec64, ℕ, suc, ◌<◌, ◌≡◌, refl, String, List, [], ◌∷◌, Option, none, some, if◌then◌else◌, u64_mod,
  lookup, lookup-map, contains, string_key, arith, ==_refl, Option-cases, inl, inr, sym, ap, ◌∙◌,
}
use edgeproxy.Pool.{
  PoolConfig, PooledConnection, BackendPool, new_pool, pool_exhausted, connect_error,
  connect_timeout, Acquired, ok, err, Attempt, get_or_create_pool, store, acquire_from, acquire,
  release_to, release, discard, cleanup_pool, cleanup,
}
use edgeproxy.Pool.Balance.{
  PoolOk, AcquiredOk, acquire_from-AcquiredOk, release_to-PoolOk, cleanup_pool-PoolOk,
  discard-PoolOk, new_pool-PoolOk,
}
use edgeproxy.Pool.World.{
  World, held_of, pick, Event, acquires, releases, discards, cleans, hand_out, step, run, EntryOk,
  Balanced, pick-held_of, Balanced-store,
}

module _ (w : World) (n : ℕ) where
  step-releases_none : (now : ℕ) → pick n w.held ≡ none → step w (releases n now) ≡ w
  unfolding step
  step-releases_none now e = rw (e, step)

  step-discards_none : pick n w.held ≡ none → step w (discards n) ≡ w
  unfolding step
  step-discards_none e = rw (e, step)

  module _ (c : PooledConnection) (rest : List PooledConnection) (b : BackendPool) where
    step-releases :
        (now : ℕ)
        → pick n w.held ≡ some (c, rest)
        → lookup c.backend_id w.pool.pools ≡ some b
        → step w (releases n now) ≡ record {
          pool = store w.pool c.backend_id (release_to w.pool.config now c b);
          held = rest;
        }
    unfolding step release
    step-releases now e found = rw (e, step) (rw (found, release))

    step-discards :
        pick n w.held ≡ some (c, rest)
        → lookup c.backend_id w.pool.pools ≡ some b
        → step w (discards n) ≡ record {
          pool = store w.pool c.backend_id (record b { in_use = dec64 b.in_use });
          held = rest;
        }
    unfolding step discard
    step-discards e found = rw (e, step) (rw (found, discard))

module _ (w : World) (fits : w.pool.config.max_connections < u64_mod) (bal : Balanced w) where
  pub created-PoolOk :
      (id addr : String)
      → PoolOk w.pool.config id (held_of id w.held) (get_or_create_pool w.pool id addr)
  unfolding get_or_create_pool
  created-PoolOk id addr = go (lookup id w.pool.pools) (bal id)
    where
      go :
          (o : Option BackendPool)
          → EntryOk w.pool.config id (held_of id w.held) o
          → PoolOk w.pool.config id
              (held_of id w.held)
              (elim o as (λ _. BackendPool) [ none ↦ new_pool addr | some b ↦ b ])
      go none e =
          subst (λ n. PoolOk w.pool.config id n (new_pool addr)) (sym e)
            (new_pool-PoolOk w.pool.config id fits addr)
      go (some b) v = v

  acquires-Balanced :
      (now : ℕ) (id addr : String) (attempt : Attempt)
      → Balanced (step w (acquires now id addr attempt))
  unfolding step acquire
  acquires-Balanced now id addr attempt =
      go (acquire_from w.pool.config id now attempt (get_or_create_pool w.pool id addr)) (
        acquire_from-AcquiredOk w.pool.config id fits (held_of id w.held) now attempt _
          (created-PoolOk id addr))
    where
      go :
          (r : BackendPool × Acquired)
          → AcquiredOk w.pool.config id (held_of id w.held) r
          → Balanced (record { pool = store w.pool id r.0; held = hand_out r.1 w.held })
      go (b, ok c) (v, e) =
          let one_more : suc (held_of id w.held) ≡ held_of id (c ∷ w.held) =
            ground (arith, string_key.same_of_eq c.backend_id id e) in
          Balanced-store w id b (c ∷ w.held) (subst (λ n. PoolOk w.pool.config id n b) one_more v)
            (λ j m.
              ground (arith, e, string_key.eq_of_same c.backend_id j, string_key.same_of_eq id j))
            bal
      go (b, err pool_exhausted) (v, e) = Balanced-store w id b w.held v (λ j m. refl) bal
      go (b, err (connect_error t)) v = Balanced-store w id b w.held v (λ j m. refl) bal
      go (b, err connect_timeout) v = Balanced-store w id b w.held v (λ j m. refl) bal

  -- The connection `c`, of the backend `id`, goes back to its pool or is given up.
  returned :
      (n : ℕ) (c : PooledConnection) (rest : List PooledConnection)
      → pick n w.held ≡ some (c, rest)
      → (put : BackendPool → BackendPool)
      → ((k : ℕ) (b : BackendPool)
          → PoolOk w.pool.config c.backend_id (suc k) b
          → PoolOk w.pool.config c.backend_id k (put b))
      → (b : BackendPool) × (lookup c.backend_id w.pool.pools ≡ some b)
        × Balanced (record { pool = store w.pool c.backend_id (put b); held = rest })
  returned n c rest e put keeps = go (lookup c.backend_id w.pool.pools) refl (bal c.backend_id)
    where
      one_less : held_of c.backend_id w.held ≡ suc (held_of c.backend_id rest)
      one_less = ground (arith, pick-held_of n w.held c rest c.backend_id e, ==_refl c.backend_id)

      go :
          (o : Option BackendPool)
          → lookup c.backend_id w.pool.pools ≡ o
          → EntryOk w.pool.config c.backend_id (held_of c.backend_id w.held) o
          → (b : BackendPool) × (lookup c.backend_id w.pool.pools ≡ some b)
            × Balanced (record { pool = store w.pool c.backend_id (put b); held = rest })
      go none found v = absurd (omega (arith, one_less))
      go (some b) found v = (
        b,
        found,
        Balanced-store w c.backend_id (put b) rest
            (keeps _ b (subst (λ k. PoolOk w.pool.config c.backend_id k b) one_less v))
            (λ j m. ground (arith, pick-held_of n w.held c rest j e)) bal,
      )

  releases-Balanced : (n now : ℕ) → Balanced (step w (releases n now))
  releases-Balanced n now = elim (Option-cases (pick n w.held)) [
    | inl e ↦ subst Balanced (sym (step-releases_none w n now e)) bal
    | inr ((c, rest), e) ↦
        let (b, found, next) =
          returned n c rest e (release_to w.pool.config now c)
            (λ k b v. release_to-PoolOk w.pool.config c.backend_id fits k now c b v refl) in
        subst Balanced (sym (step-releases w n c rest b now e found)) next
  ]

  discards-Balanced : (n : ℕ) → Balanced (step w (discards n))
  discards-Balanced n = elim (Option-cases (pick n w.held)) [
    | inl e ↦ subst Balanced (sym (step-discards_none w n e)) bal
    | inr ((c, rest), e) ↦
        let (b, found, next) =
          returned n c rest e (λ b. record b { in_use = dec64 b.in_use })
            (λ k b v. discard-PoolOk w.pool.config c.backend_id fits k b v) in
        subst Balanced (sym (step-discards w n c rest b e found)) next
  ]

  cleans-Balanced : (started : List String) (now : ℕ) → Balanced (step w (cleans started now))
  unfolding step cleanup
  cleans-Balanced started now j =
      subst (EntryOk w.pool.config j (held_of j w.held))
        (sym (
          lookup-map (λ k b. if contains k started then cleanup_pool w.pool.config now b else b) j
            w.pool.pools))
        (go (lookup j w.pool.pools) (bal j))
    where
      go :
          (o : Option BackendPool)
          → EntryOk w.pool.config j (held_of j w.held) o
          → EntryOk w.pool.config j (held_of j w.held) (elim o as (λ _. Option BackendPool) [
            | none ↦ none
            | some b ↦ some (if contains j started then cleanup_pool w.pool.config now b else b)
          ])
      go none v = v
      go (some b) v =
          ground (arith, cleanup_pool-PoolOk w.pool.config j fits (held_of j w.held) now b v)

  step-Balanced : (e : Event) → Balanced (step w e)
  step-Balanced (acquires now id addr attempt) = acquires-Balanced now id addr attempt
  step-Balanced (releases n now) = releases-Balanced n now
  step-Balanced (discards n) = discards-Balanced n
  step-Balanced (cleans started now) = cleans-Balanced started now

step-config : (w : World) (e : Event) → (step w e).pool.config ≡ w.pool.config
unfolding step acquire release discard cleanup
step-config w (acquires now id addr attempt) = refl
step-config w (releases n now) = ground arith
step-config w (discards n) = ground arith
step-config w (cleans started now) = refl

pub run-Balanced :
    (cfg : PoolConfig) (es : List Event) (w : World)
    → cfg.max_connections < u64_mod
    → w.pool.config ≡ cfg
    → Balanced w
    → Balanced (run w es) × ((run w es).pool.config ≡ cfg)
unfolding run
run-Balanced cfg [] w fits e bal = (bal, e)
run-Balanced cfg (v ∷ es) w fits e bal =
    run-Balanced cfg es (step w v) fits (step-config w v ∙ e)
      (step-Balanced w (rw (ap (λ (c : PoolConfig). c.max_connections) e) fits) bal v)
