-- ===== src/Clock/Order.antt =====
-- The order of timestamps is a strict total order.
use edgeproxy.Prelude.{◌≡◌, true, false, arith}
use edgeproxy.Clock.{HlcTimestamp, before}

pub before_irrefl : (s : HlcTimestamp) → before s s ≡ false
unfolding before
before_irrefl s = ground arith

pub before_trans :
    (s t u : HlcTimestamp) → before s t ≡ true → before t u ≡ true → before s u ≡ true
unfolding before
before_trans s t u h k = ground arith

pub before_asym : (s t : HlcTimestamp) → before s t ≡ true → before t s ≡ false
unfolding before
before_asym s t h = ground arith

-- Of two timestamps neither of which is before the other, each has the fields of the other.
pub before_total : (s t : HlcTimestamp) → before s t ≡ false → before t s ≡ false → s ≡ t
unfolding before
before_total s t h k = ground arith

pub before-later :
    (s t u : HlcTimestamp) → before t u ≡ true → before s u ≡ false → before s t ≡ false
unfolding before
before-later s t u h k = ground arith

pub before-earlier :
    (s t u : HlcTimestamp) → before t u ≡ false → before s t ≡ false → before s u ≡ false
unfolding before
before-earlier s t u h k = ground arith
