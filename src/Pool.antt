-- ===== src/Pool.antt =====
-- src/infrastructure/connection_pool.rs: the pools of idle connections, one for each backend.
-- `Instant::now()` is the argument `now`, a TCP stream is a number, and what a connection attempt
-- comes to is an argument. Each call runs as one step; a `usize` counter wraps.
pub mod Balance
pub mod World
pub mod Histories
pub mod Limit
pub mod Cleared
mod Examples
use edgeproxy.Prelude.{
  ℕ, suc, ◌-◌, Bool, true, false, ◌&&◌, ◌||◌, not, String, List, [], ◌∷◌, ◌++◌, Option, none, some,
  if◌then◌else◌, ltb, leb, inc64, dec64, Duration, from_secs, lookup, insert, contains, length,
  retain, map, string_key,
}

pub record PoolConfig : Type 0 where
  pub max_connections : ℕ
  pub min_idle : ℕ
  pub idle_timeout : Duration
  pub max_lifetime : Duration
  pub connect_timeout : Duration

abbrev pub default_config : PoolConfig
default_config = record {
  max_connections = 10;
  min_idle = 2;
  idle_timeout = from_secs 300;
  max_lifetime = from_secs 3600;
  connect_timeout = from_secs 5;
}

pub record PooledConnection : Type 0 where
  pub stream : ℕ
  pub created_at : ℕ
  pub last_used : ℕ
  pub backend_id : String

unfoldable pub new_connection : ℕ → String → ℕ → PooledConnection
new_connection stream backend_id now = record {
  stream = stream;
  created_at = now;
  last_used = now;
  backend_id = backend_id;
}

unfoldable pub is_expired : ℕ → Duration → PooledConnection → Bool
is_expired now max_lifetime c = ltb max_lifetime (now - c.created_at)

unfoldable pub is_idle_expired : ℕ → Duration → PooledConnection → Bool
is_idle_expired now idle_timeout c = ltb idle_timeout (now - c.last_used)

unfoldable pub touch : ℕ → PooledConnection → PooledConnection
touch now c = record c { last_used = now }

-- The front of the queue is the head of the list.
pub record BackendPool : Type 0 where
  pub connections : List PooledConnection
  pub in_use : ℕ
  pub addr : String

unfoldable pub new_pool : String → BackendPool
new_pool addr = record { connections = []; in_use = 0; addr = addr }

unfoldable pub total_connections : BackendPool → ℕ
total_connections p = p.in_use

pub data PoolError : Type 0 where
  pool_exhausted : PoolError
  connect_error : String → PoolError
  connect_timeout : PoolError

unfoldable pub display : PoolError → List String
display pool_exhausted = "connection pool exhausted" ∷ []
display (connect_error e) = "connection error: " ∷ e ∷ []
display connect_timeout = "connection timeout" ∷ []

pub data Acquired : Type 0 where
  ok : PooledConnection → Acquired
  err : PoolError → Acquired

-- What `timeout(connect_timeout, TcpStream::connect(addr))` comes to.
pub data Attempt : Type 0 where
  connected : ℕ → Attempt
  refused : String → Attempt
  timed_out : Attempt

pub record ConnectionPool : Type 0 where
  pub config : PoolConfig
  pub pools : List (String × BackendPool)

unfoldable pub new_pools : PoolConfig → ConnectionPool
new_pools cfg = record { config = cfg; pools = [] }

unfoldable pub get_or_create_pool : ConnectionPool → String → String → BackendPool
unfolding new_pool
get_or_create_pool p id addr = elim (lookup id p.pools) [ none ↦ new_pool addr | some b ↦ b ]

unfoldable pub store : ConnectionPool → String → BackendPool → ConnectionPool
store p id b = record p { pools = insert id b p.pools }

-- The `while let` loop of `acquire`: the first valid connection and those behind it; what stands
-- before it is shut down.
unfoldable pub pop_valid :
    PoolConfig → ℕ → List PooledConnection → Option (PooledConnection × List PooledConnection)
unfolding is_expired is_idle_expired
pop_valid cfg now [] = none
pop_valid cfg now (c ∷ cs) =
    if is_expired now cfg.max_lifetime c || is_idle_expired now cfg.idle_timeout c
    then pop_valid cfg now cs
    else some (c, cs)

-- The end of `acquire`, once the queue is empty.
unfoldable pub connect : PoolConfig → String → ℕ → Attempt → BackendPool → BackendPool × Acquired
unfolding new_connection total_connections
connect cfg id now (connected stream) b =
    if leb cfg.max_connections (total_connections b)
    then (b, err pool_exhausted)
    else (record b { in_use = inc64 b.in_use }, ok (new_connection stream id now))
connect cfg id now (refused e) b =
    if leb cfg.max_connections (total_connections b)
    then (b, err pool_exhausted)
    else (b, err (connect_error e))
connect cfg id now timed_out b =
    if leb cfg.max_connections (total_connections b)
    then (b, err pool_exhausted)
    else (b, err connect_timeout)

unfoldable pub acquire_from :
    PoolConfig → String → ℕ → Attempt → BackendPool → BackendPool × Acquired
unfolding touch
acquire_from cfg id now attempt b = elim (pop_valid cfg now b.connections) [
  | some (c, rest) ↦ (record b { connections = rest; in_use = inc64 b.in_use }, ok (touch now c))
  | none ↦ connect cfg id now attempt (record b { connections = [] })
]

unfoldable pub acquire : ConnectionPool → ℕ → String → String → Attempt → ConnectionPool × Acquired
unfolding get_or_create_pool store
acquire p now id addr attempt =
    let (b, r) = acquire_from p.config id now attempt (get_or_create_pool p id addr) in
    (store p id b, r)

unfoldable pub release_to : PoolConfig → ℕ → PooledConnection → BackendPool → BackendPool
unfolding is_expired touch
release_to cfg now c b =
    if is_expired now cfg.max_lifetime c
    then record b { in_use = dec64 b.in_use }
    else if ltb (length b.connections) cfg.max_connections
    then record b { in_use = dec64 b.in_use; connections = b.connections ++ touch now c ∷ [] }
    else record b { in_use = dec64 b.in_use }

unfoldable pub release : ConnectionPool → ℕ → PooledConnection → ConnectionPool
unfolding store
release p now c = elim (lookup c.backend_id p.pools) [
  | none ↦ p
  | some b ↦ store p c.backend_id (release_to p.config now c b)
]

unfoldable pub discard : ConnectionPool → PooledConnection → ConnectionPool
unfolding store
discard p c = elim (lookup c.backend_id p.pools) [
  | none ↦ p
  | some b ↦ store p c.backend_id (record b { in_use = dec64 b.in_use })
]

pub record PoolStats : Type 0 where
  pub in_use : ℕ
  pub addr : String

unfoldable pub stats_of : BackendPool → PoolStats
stats_of b = record { in_use = b.in_use; addr = b.addr }

unfoldable pub stats : ConnectionPool → String → Option PoolStats
unfolding stats_of
stats p id = elim (lookup id p.pools) [ none ↦ none | some b ↦ some (stats_of b) ]

unfoldable pub all_stats : ConnectionPool → List (String × PoolStats)
unfolding stats_of
all_stats p = map (λ e. (e.0, stats_of e.1)) p.pools

-- One round of the task of `start_cleanup`, on one pool.
unfoldable pub cleanup_pool : PoolConfig → ℕ → BackendPool → BackendPool
unfolding is_expired is_idle_expired
cleanup_pool cfg now b = record b {
  connections =
      retain
        (λ c.
          not (is_idle_expired now cfg.idle_timeout c) && not (is_expired now cfg.max_lifetime c))
        b.connections;
}

-- One round over the pools with the keys `started`: the task walks a copy of the map, made when
-- `start_cleanup` is called, which shares the pools that stood in the map at that time. (A pool made
-- after a `clear` is not the one in the copy, so `started` names none of those.)
unfoldable pub cleanup : List String → ConnectionPool → ℕ → ConnectionPool
cleanup started p now = record p {
  pools =
      map (λ e. (e.0, if contains e.0 started then cleanup_pool p.config now e.1 else e.1)) p.pools;
}

unfoldable pub clear : ConnectionPool → ConnectionPool
clear p = record p { pools = [] }
