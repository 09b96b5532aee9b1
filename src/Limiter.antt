-- ===== src/Limiter.antt =====
-- src/infrastructure/rate_limiter.rs: the token bucket of each client.
-- The clock `now_ms()` is the argument `now`. The rate is an `f64`, taken as an interface. A check
-- holds the map's write lock on its client's entry, so the calls run one after another; what is
-- left to chance are the spurious failures of `compare_exchange_weak`, counted by an argument.
pub mod Bucket
pub mod Clients
mod Examples
use edgeproxy.Prelude.{
  ℕ, zero, suc, ◌+◌, ◌-◌, ◌/◌, ◌%◌, Bool, true, false, List, [], ◌∷◌, none, some, if◌then◌else◌,
  ltb, min, u64_mod, saturating_sub, Duration, from_secs, as_millis, lookup, insert, remove, length,
  retain,
}
use edgeproxy.Net.{IpAddr, ip_key}
use edgeproxy.Float.{F64}

pub record RateLimitConfig : Type 0 where
  pub max_requests : ℕ
  pub window : Duration
  pub burst_size : ℕ

abbrev pub default_config : RateLimitConfig
default_config = record { max_requests = 100; window = from_secs 1; burst_size = 10 }

pub record ClientState : Type 0 where
  pub tokens : ℕ
  pub last_refill_ms : ℕ

unfoldable pub new_client : ℕ → ℕ → ClientState
new_client burst_size now = record { tokens = burst_size; last_refill_ms = now }

-- The loop on `compare_exchange_weak`, which fails spuriously `failures` times; no other thread
-- writes meanwhile, so each failure reads the value again as it was.
unfoldable pub consume : ℕ → ℕ → ℕ → ℕ × Bool
consume zero current cost = if ltb current cost then (current, false) else (current - cost, true)
consume (suc failures) current cost =
    let again = consume failures current cost in
    if ltb current cost then (current, false) else again

module _ (f : F64) where
  pub record RateLimiter : Type 0 where
    pub config : RateLimitConfig
    pub clients : List (IpAddr × ClientState)
    pub refill_rate_per_ms : f.F

module _ {f : F64} where
  unfoldable pub new_limiter : RateLimitConfig → RateLimiter f
  new_limiter cfg = record {
    config = cfg;
    clients = [];
    refill_rate_per_ms = f.div (f.of_nat cfg.max_requests) (f.of_nat (cfg.window / 1_000_000));
  }

  unfoldable pub tokens_to_add : RateLimiter f → ℕ → ClientState → ℕ
  tokens_to_add l now s =
      f.to_u64 (f.mul (f.of_nat (saturating_sub now s.last_refill_ms)) l.refill_rate_per_ms)

  -- The refill of `check_with_cost`, capped at `burst_size`.
  unfoldable pub refill : RateLimiter f → ℕ → ClientState → ClientState
  refill l now s =
      let added = tokens_to_add l now s in
      if ltb 0 added
      then record {
        tokens = min ((s.tokens + added) % u64_mod) l.config.burst_size;
        last_refill_ms = now;
      }
      else s

  unfoldable pub check_client : RateLimiter f → ℕ → ℕ → ℕ → ClientState → ClientState × Bool
  check_client l failures now cost s =
      let s' = refill l now s in
      let (left, allowed) = consume failures s'.tokens cost in
      (record s' { tokens = left }, allowed)

  -- `entry(ip).or_insert_with(…)`.
  unfoldable pub client_of : RateLimiter f → IpAddr → ℕ → ClientState
  unfolding new_client
  client_of l ip now = elim (lookup ip l.clients) [
    | none ↦ new_client l.config.burst_size now
    | some s ↦ s
  ]

  unfoldable pub check_with_cost : RateLimiter f → ℕ → ℕ → IpAddr → ℕ → RateLimiter f × Bool
  unfolding client_of
  check_with_cost l failures now ip cost =
      let (s, allowed) = check_client l failures now cost (client_of l ip now) in
      (record l { clients = insert ip s l.clients }, allowed)

  unfoldable pub check : RateLimiter f → ℕ → ℕ → IpAddr → RateLimiter f × Bool
  unfolding check_with_cost
  check l failures now ip = check_with_cost l failures now ip 1

  unfoldable pub remaining : RateLimiter f → IpAddr → ℕ
  remaining l ip = elim (lookup ip l.clients) [ none ↦ l.config.burst_size | some s ↦ s.tokens ]

  unfoldable pub clear : RateLimiter f → IpAddr → RateLimiter f
  clear l ip = record l { clients = remove ip l.clients }

  unfoldable pub clear_all : RateLimiter f → RateLimiter f
  clear_all l = record l { clients = [] }

  unfoldable pub client_count : RateLimiter f → ℕ
  client_count l = length l.clients

  unfoldable pub cleanup : RateLimiter f → ℕ → Duration → RateLimiter f
  cleanup l now max_age = record l {
    clients =
        retain (λ e. ltb (saturating_sub now e.1.last_refill_ms) (as_millis max_age)) l.clients;
  }
