-- ===== src/Pool/World.antt =====
-- Histories of a pool and its callers: the connections held never outrun the limit.
use mathlib.Core.Path.{subst}
use edgeproxy.Prelude.{
  ℕ, zero, suc, ◌+◌, ◌≡◌, refl, false, String, List, [], ◌∷◌, Option, none, some, if◌then◌else◌,
  lookup, insert, lookup-insert, string_key, arith, ◌==◌, Bool-cases, inl, inr, sym,
}
use edgeproxy.Pool.{
  PoolConfig, PooledConnection, BackendPool, Acquired, ok, err, Attempt, ConnectionPool, store,
  acquire, release, discard, cleanup,
}
use edgeproxy.Pool.Balance.{PoolOk}

-- The connections that the callers hold, beside the pool.
pub record World : Type 0 where
  pub pool : ConnectionPool
  pub held : List PooledConnection

-- How many of them are of one backend.
abbrev pub held_of : String → List PooledConnection → ℕ
held_of id [] = 0
held_of id (c ∷ cs) = (if c.backend_id == id then 1 else 0) + held_of id cs

-- The `n`-th of a list, and the others.
unfoldable pub pick {ℓ} : {A : Type ℓ} → ℕ → List A → Option (A × List A)
pick n [] = none
pick zero (a ∷ as') = some (a, as')
pick (suc n) (a ∷ as') = elim (pick n as') [ none ↦ none | some (b, rest) ↦ some (b, a ∷ rest) ]

-- What happens to a pool: a caller acquires a connection, or releases or discards the `n`-th of those
-- held, or the cleanup runs.
pub data Event : Type 0 where
  acquires : ℕ → String → String → Attempt → Event
  releases : ℕ → ℕ → Event
  discards : ℕ → Event
  cleans : List String → ℕ → Event

abbrev pub hand_out : Acquired → List PooledConnection → List PooledConnection
hand_out (ok c) cs = c ∷ cs
hand_out (err e) cs = cs

unfoldable pub step : World → Event → World
step w (acquires now id addr attempt) =
    let (p, r) = acquire w.pool now id addr attempt in record { pool = p; held = hand_out r w.held }
step w (releases n now) = elim (pick n w.held) [
  | none ↦ w
  | some (c, rest) ↦ record { pool = release w.pool now c; held = rest }
]
step w (discards n) = elim (pick n w.held) [
  | none ↦ w
  | some (c, rest) ↦ record { pool = discard w.pool c; held = rest }
]
step w (cleans started now) = record w { pool = cleanup started w.pool now }

unfoldable pub run : World → List Event → World
run w [] = w
run w (e ∷ es) = run (step w e) es

-- A backend's pool agrees with the connections held of it, and a backend with no pool has none.
abbrev pub EntryOk : PoolConfig → String → ℕ → Option BackendPool → Type 0
EntryOk cfg id n none = n ≡ 0
EntryOk cfg id n (some b) = PoolOk cfg id n b

abbrev pub Balanced : World → Type 0
Balanced w = (id : String) → EntryOk w.pool.config id (held_of id w.held) (lookup id w.pool.pools)

pub pick-held_of :
    (n : ℕ) (cs : List PooledConnection) (c : PooledConnection) (rest : List PooledConnection)
    (j : String)
    → pick n cs ≡ some (c, rest)
    → held_of j cs ≡ (if c.backend_id == j then 1 else 0) + held_of j rest
unfolding pick
pick-held_of n [] c rest j e = cc
pick-held_of zero (a ∷ as') c rest j e = ground arith
pick-held_of (suc n) (a ∷ as') c rest j e =
    go (pick n as') refl (λ b r q. pick-held_of n as' b r j q) e
  where
    go :
        (o : Option (PooledConnection × List PooledConnection))
        → pick n as' ≡ o
        → ((b : PooledConnection) (r : List PooledConnection)
            → pick n as' ≡ some (b, r)
            → held_of j as' ≡ (if b.backend_id == j then 1 else 0) + held_of j r)
        → (elim o as (λ _. Option (PooledConnection × List PooledConnection)) [
          | none ↦ none
          | some (b, r) ↦ some (b, a ∷ r)
        ])
          ≡ some (c, rest)
        → held_of j (a ∷ as') ≡ (if c.backend_id == j then 1 else 0) + held_of j rest
    go none q ih e' = cc
    go (some (b, r)) q ih e' = ground (arith, ih b r q)

pub Balanced-store :
    (w : World) (id : String) (b : BackendPool) (held : List PooledConnection)
    → PoolOk w.pool.config id (held_of id held) b
    → ((j : String) → (id == j) ≡ false → held_of j held ≡ held_of j w.held)
    → Balanced w
    → Balanced (record { pool = store w.pool id b; held = held })
unfolding store
Balanced-store w id b held v others bal j = elim (Bool-cases (id == j)) [
  | inl hit ↦
      let same : id ≡ j = string_key.eq_of_same id j hit in
      let found : lookup j (insert id b w.pool.pools) ≡ some b =
        rw (lookup-insert id j b w.pool.pools, hit) in
      subst (EntryOk w.pool.config j (held_of j held)) (sym found)
        (subst (λ k. PoolOk w.pool.config k (held_of k held) b) same v)
  | inr miss ↦
      let kept : lookup j (insert id b w.pool.pools) ≡ lookup j w.pool.pools =
        rw (lookup-insert id j b w.pool.pools, miss) in
      subst (EntryOk w.pool.config j (held_of j held)) (sym kept) (
        subst (λ n. EntryOk w.pool.config j n (lookup j w.pool.pools)) (sym (others j miss))
          (bal j))
]
