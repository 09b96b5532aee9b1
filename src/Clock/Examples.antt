-- ===== src/Clock/Examples.antt =====
-- Ticks at concrete timestamps.
use edgeproxy.Prelude.{◌≡◌, refl, some}
use edgeproxy.Clock.{HlcTimestamp, tick}

abbrev last : HlcTimestamp
last = record { wall_time = 1000; counter = 5; node_hash = 42 }

abbrev received : HlcTimestamp
received = record { wall_time = 1000; counter = 3; node_hash = 43 }

same_wall_time :
    tick last 900 (some received) 42 ≡ record { wall_time = 1000; counter = 6; node_hash = 42 }
unfolding tick
same_wall_time = refl

clock_ahead :
    tick last 2000 (some received) 42 ≡ record { wall_time = 2000; counter = 0; node_hash = 42 }
unfolding tick
clock_ahead = refl

abbrev worn_out : HlcTimestamp
worn_out = record { wall_time = 1000; counter = 4294967295; node_hash = 42 }
