-- ===== src/Clock/Tick.antt =====
-- src/replication/types.rs: a tick comes after what the node knows.
use edgeproxy.Prelude.{ℕ, ◌+◌, ◌<◌, ◌≡◌, true, none, some, arith, u32_mod}
use edgeproxy.Clock.{HlcTimestamp, before, tick}

-- The timestamp of a tick is after the node's last one and after the one received, whatever the
-- system clock says, if neither counter is the largest u32.
pub tick-before :
    (s o : HlcTimestamp) (now node_hash : ℕ)
    → s.counter + 1 < u32_mod
    → o.counter + 1 < u32_mod
    → (before s (tick s now (some o) node_hash) ≡ true)
      × (before o (tick s now (some o) node_hash) ≡ true)
      × (before s (tick s now none node_hash) ≡ true)
unfolding before tick
tick-before s o now node_hash h k = (ground arith, ground arith, ground arith)

-- At the largest counter the tick goes back: while the system clock is not ahead of the node's last
-- timestamp, the counter wraps to 0 and the timestamp is before the last one.
pub tick-wraps :
    (s : HlcTimestamp) (now node_hash : ℕ)
    → s.counter + 1 ≡ u32_mod
    → now < s.wall_time + 1
    → before (tick s now none node_hash) s ≡ true
unfolding before tick
tick-wraps s now node_hash full behind = ground arith
