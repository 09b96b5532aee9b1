-- ===== src/Health/Outage.antt =====
-- src/infrastructure/health_checker.rs: an outage and the recovery from it.
use edgeproxy.Prelude.{
  ℕ, ◌+◌, ◌<◌, ◌≡◌, true, false, ◌||◌, String, List, [], ◌∷◌, leb, ltb, length, u32_mod, arith,
}
use edgeproxy.Health.{HealthCheckConfig, HealthStatus, success, failure, apply_result}

-- Checks that fail with these errors and latencies, or succeed with these latencies.
unfoldable pub fail_each : HealthCheckConfig → List (String × ℕ) → HealthStatus → HealthStatus
fail_each cfg [] s = s
fail_each cfg (e ∷ es) s = fail_each cfg es (apply_result cfg (failure e.0 e.1) s)

unfoldable pub succeed_each : HealthCheckConfig → List ℕ → HealthStatus → HealthStatus
succeed_each cfg [] s = s
succeed_each cfg (l ∷ ls) s = succeed_each cfg ls (apply_result cfg (success l) s)

fail_each-down :
    (cfg : HealthCheckConfig) (es : List (String × ℕ)) (s : HealthStatus)
    → s.healthy ≡ false
    → (fail_each cfg es s).healthy ≡ false
unfolding fail_each apply_result
fail_each-down cfg [] s h = h
fail_each-down cfg (e ∷ es) s h =
    ground (arith, fail_each-down cfg es (apply_result cfg (failure e.0 e.1) s))

fail_each-healthy :
    (cfg : HealthCheckConfig) (es : List (String × ℕ)) (s : HealthStatus)
    → s.healthy ≡ true
    → s.consecutive_failures + length es < u32_mod
    → s.consecutive_failures < cfg.unhealthy_threshold
    → (fail_each cfg es s).healthy
      ≡ ltb (s.consecutive_failures + length es) cfg.unhealthy_threshold
unfolding fail_each apply_result
fail_each-healthy cfg [] s h fits below = ground arith
fail_each-healthy cfg (e ∷ es) s h fits below = ground (
  arith,
  fail_each-down cfg es (apply_result cfg (failure e.0 e.1) s),
  fail_each-healthy cfg es (apply_result cfg (failure e.0 e.1) s),
)

-- The last of some failures leaves no success counted.
fail_each-successes :
    (cfg : HealthCheckConfig) (e : String × ℕ) (es : List (String × ℕ)) (s : HealthStatus)
    → (fail_each cfg (e ∷ es) s).consecutive_successes ≡ 0
unfolding fail_each apply_result
fail_each-successes cfg e [] s = ground arith
fail_each-successes cfg e (d ∷ es) s =
    fail_each-successes cfg d es (apply_result cfg (failure e.0 e.1) s)

succeed_each-up :
    (cfg : HealthCheckConfig) (ls : List ℕ) (s : HealthStatus)
    → s.healthy ≡ true
    → (succeed_each cfg ls s).healthy ≡ true
unfolding succeed_each apply_result
succeed_each-up cfg [] s h = h
succeed_each-up cfg (l ∷ ls) s h =
    ground (arith, succeed_each-up cfg ls (apply_result cfg (success l) s))

succeed_each-healthy :
    (cfg : HealthCheckConfig) (ls : List ℕ) (s : HealthStatus)
    → s.healthy ≡ false
    → s.consecutive_successes + length ls < u32_mod
    → s.consecutive_successes < cfg.healthy_threshold
    → (succeed_each cfg ls s).healthy
      ≡ leb cfg.healthy_threshold (s.consecutive_successes + length ls)
unfolding succeed_each apply_result
succeed_each-healthy cfg [] s h fits below = ground arith
succeed_each-healthy cfg (l ∷ ls) s h fits below = ground (
  arith,
  succeed_each-up cfg ls (apply_result cfg (success l) s),
  succeed_each-healthy cfg ls (apply_result cfg (success l) s),
)

-- A healthy backend with no failure counted stays healthy through failures fewer than the unhealthy
-- threshold and is unhealthy from the failure that reaches it; and after one failure or more and then
-- successes it is healthy exactly if the failures did not reach that threshold or the successes
-- reached the healthy one. The thresholds are positive and the checks fewer than 2^32.
pub outage :
    (cfg : HealthCheckConfig) (e : String × ℕ) (es : List (String × ℕ)) (ls : List ℕ)
    (s : HealthStatus)
    → s.healthy ≡ true
    → s.consecutive_failures ≡ 0
    → 0 < cfg.unhealthy_threshold
    → 0 < cfg.healthy_threshold
    → length (e ∷ es) < u32_mod
    → length ls < u32_mod
    → let failed = fail_each cfg (e ∷ es) s in
      (failed.healthy ≡ ltb (length (e ∷ es)) cfg.unhealthy_threshold)
      × ((succeed_each cfg ls failed).healthy ≡ (
          ltb (length (e ∷ es)) cfg.unhealthy_threshold || leb cfg.healthy_threshold (length ls)))
outage cfg e es ls s h none_yet u v fits fits' =
    let failed = fail_each cfg (e ∷ es) s in
    let down : failed.healthy ≡ ltb (length (e ∷ es)) cfg.unhealthy_threshold =
      ground (arith, fail_each-healthy cfg (e ∷ es) s) in
    (
      down,
      ground (
        arith,
        fail_each-successes cfg e es s,
        succeed_each-up cfg ls failed,
        succeed_each-healthy cfg ls failed,
      ),
    )
