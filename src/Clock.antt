-- ===== src/Clock.antt =====
-- src/replication/types.rs: the hybrid logical clock. The system time is the argument `now`, in
-- microseconds, and `node_hash` is what `crc32fast::hash` gives for the node's name. The `+ 1` on a
-- counter wraps, as in a release build.
pub mod Order
pub mod Tick
mod Examples
use edgeproxy.Prelude.{
  ℕ, max, Bool, ◌&&◌, ◌||◌, not, Option, none, some, if◌then◌else◌, ltb, nat_beq, inc32,
}

pub record HlcTimestamp : Type 0 where
  pub wall_time : ℕ
  pub counter : ℕ
  pub node_hash : ℕ

abbrev pub default_timestamp : HlcTimestamp
default_timestamp = record { wall_time = 0; counter = 0; node_hash = 0 }

-- `<` of the derived `Ord`: the fields in their order.
unfoldable pub before : HlcTimestamp → HlcTimestamp → Bool
before s t =
    ltb s.wall_time t.wall_time
    || (nat_beq s.wall_time t.wall_time
        && (ltb s.counter t.counter
            || (nat_beq s.counter t.counter && ltb s.node_hash t.node_hash)))

unfoldable pub now_timestamp : ℕ → ℕ → HlcTimestamp
now_timestamp now node_hash = record { wall_time = now; counter = 0; node_hash = node_hash }

unfoldable pub tick : HlcTimestamp → ℕ → Option HlcTimestamp → ℕ → HlcTimestamp
tick s now (some o) node_hash =
    let max_wall = max (max now s.wall_time) o.wall_time in
    record {
      wall_time = max_wall;
      counter =
          if nat_beq max_wall s.wall_time && nat_beq max_wall o.wall_time
          then inc32 (max s.counter o.counter)
          else if nat_beq max_wall s.wall_time
          then inc32 s.counter
          else if nat_beq max_wall o.wall_time
          then inc32 o.counter
          else 0;
      node_hash = node_hash;
    }
tick s now none node_hash =
    let max_wall = max now s.wall_time in
    record {
      wall_time = max_wall;
      counter = if nat_beq max_wall s.wall_time then inc32 s.counter else 0;
      node_hash = node_hash;
    }
