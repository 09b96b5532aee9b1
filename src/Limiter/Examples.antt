-- ===== src/Limiter/Examples.antt =====
-- Runs of the rate limiter, and its theorems at concrete limiters, over whole numbers for `f64`.
use edgeproxy.Prelude.{ℕ, ◌≡◌, ◌≤◌, ◌<◌, refl, true, false, List, [], ◌∷◌, from_secs, u64_mod}
use edgeproxy.Net.{IpAddr, v4, ip_key}
use edgeproxy.Float.{whole}
use edgeproxy.Limiter.{
  ClientState, RateLimiter, default_config, new_limiter, check_client, check_with_cost, remaining,
  refill, tokens_to_add, consume,
}
use edgeproxy.Limiter.Clients.{Call, checks, clears, cleans, apply_all, burst_bound}

-- 3 tokens for each millisecond, 5 at most.
abbrev brisk : RateLimiter whole
brisk = record {
  config = record { max_requests = 3000; window = from_secs 1; burst_size = 5 };
  clients = [];
  refill_rate_per_ms = 3;
}

abbrev client : IpAddr
client = v4 7

abbrev thirsty : ClientState
thirsty = record { tokens = 1; last_refill_ms = 100 }

refused_then_refilled : (check_client brisk 0 100 2 thirsty).1 ≡ false
unfolding check_client refill tokens_to_add consume
refused_then_refilled = refl

admitted_after_a_millisecond : (check_client brisk 2 101 2 thirsty).1 ≡ true
unfolding check_client refill tokens_to_add consume
admitted_after_a_millisecond = refl

abbrev history : List Call
history = checks 0 10 client 3 ∷ clears (v4 8) ∷ cleans 90 1_000_000 ∷ []

burst_bound_example :
    (remaining (apply_all (new_limiter {f = whole} default_config) history) client ≤ 10)
    × ((failures now cost : ℕ)
        → 10 < cost
        → (check_with_cost
            (apply_all (new_limiter {f = whole} default_config) history)
            failures
            now
            client
            cost).1
          ≡ false)
burst_bound_example = burst_bound whole default_config history client

-- The window is under a millisecond: the rate is infinite, here the largest `u64`.
abbrev instant : RateLimiter whole
instant = record brisk { refill_rate_per_ms = u64_mod }
