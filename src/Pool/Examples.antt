-- ===== src/Pool/Examples.antt =====
-- Runs of the connection pools, and their theorems at concrete histories.
use edgeproxy.Prelude.{
  ◌+◌, ◌≡◌, ◌≤◌, ◌<◌, refl, List, [], ◌∷◌, some, arith, lookup, contains, insert, from_secs,
  u64_mod, length, string_key,
}
use edgeproxy.Pool.{
  PoolConfig, BackendPool, pool_exhausted, err, ok, connected, refused, timed_out, new_pools,
  get_or_create_pool, store, pop_valid, connect, acquire_from, acquire, release_to, release,
  cleanup, new_pool, new_connection, cleanup_pool, is_expired, is_idle_expired, touch,
  total_connections,
}
use edgeproxy.Pool.World.{held_of, pick, Event, acquires, releases, cleans, step, run}
use edgeproxy.Pool.Limit.{start, connections_bounded}

abbrev tiny : PoolConfig
tiny = record {
  max_connections = 2;
  min_idle = 1;
  idle_timeout = from_secs 1;
  max_lifetime = from_secs 10;
  connect_timeout = from_secs 1;
}

abbrev history : List Event
history =
    acquires 0 "a" "a:80" (connected 1)
    ∷ acquires 1 "a" "a:80" (connected 2)
    ∷ acquires 2 "a" "a:80" (connected 3)
    ∷ acquires 3 "b" "b:80" (refused "no route")
    ∷ []

two_held : held_of "a" (run (start tiny) history).held ≡ 2
unfolding run step acquire get_or_create_pool store acquire_from connect pop_valid new_pools
    new_pool lookup insert new_connection total_connections
two_held = refl

released_is_reused :
    (acquire
      (run (start tiny) (acquires 0 "a" "a:80" (connected 1) ∷ releases 0 4 ∷ [])).pool
      5
      "a"
      "a:80"
      timed_out).1
    ≡ ok (record { stream = 1; created_at = 0; last_used = 5; backend_id = "a" })
unfolding run step pick acquire release release_to get_or_create_pool store acquire_from connect
    pop_valid new_pools new_pool lookup insert new_connection total_connections is_expired
    is_idle_expired touch
released_is_reused = refl

cleanup_drops_the_idle :
    lookup "a"
      (run (start tiny) (
        acquires 0 "a" "a:80" (connected 1)
        ∷ releases 0 4
        ∷ cleans ("a" ∷ []) (from_secs 2)
        ∷ [])).pool.pools
    ≡ some (new_pool "a:80")
unfolding run step pick acquire release release_to get_or_create_pool store acquire_from connect
    pop_valid new_pools new_pool lookup insert new_connection total_connections is_expired
    is_idle_expired touch cleanup cleanup_pool contains
cleanup_drops_the_idle = refl

abbrev full_pool : BackendPool
full_pool = record { connections = []; in_use = 2; addr = "a:80" }

pool_found : lookup "a" (run (start tiny) history).pool.pools ≡ some full_pool
unfolding run step acquire get_or_create_pool store acquire_from connect pop_valid new_pools
    new_pool lookup insert new_connection total_connections
pool_found = refl

connections_bounded_example :
    (full_pool.in_use ≡ held_of "a" (run (start tiny) history).held)
    × (length full_pool.connections + held_of "a" (run (start tiny) history).held ≤ 2)
connections_bounded_example = connections_bounded tiny history "a" (omega arith) pool_found

none_left :
    (acquire (run (start tiny) history).pool 9 "a" "a:80" (connected 4)).1 ≡ err pool_exhausted
unfolding run step acquire get_or_create_pool store acquire_from connect pop_valid new_pools
    new_pool lookup insert new_connection total_connections
none_left = refl

tiny_fits : (run (start tiny) history).pool.config.max_connections < u64_mod
unfolding run step acquire store new_pools
tiny_fits = omega arith
