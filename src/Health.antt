-- ===== src/Health.antt =====
-- src/infrastructure/health_checker.rs: what the checks of a backend make of its health. What a probe
-- comes to is an argument, and so is the time; the `u32` counts wrap as in a release build.
pub mod Transition
pub mod Outage
pub mod Probing
mod Examples
use Prim.Native.String.{◌++◌ as append}
use edgeproxy.Prelude.{
  ℕ, Bool, true, false, not, ◌&&◌, String, List, [], ◌∷◌, Option, none, some, if◌then◌else◌, leb,
  inc32, lookup, insert, Duration, from_secs, string_key,
}
use edgeproxy.Domain.{Backend}

pub data HealthCheckType : Type 0 where
  tcp : HealthCheckType
  http : String → HealthCheckType

pub record HealthCheckConfig : Type 0 where
  pub interval : Duration
  pub timeout : Duration
  pub unhealthy_threshold : ℕ
  pub healthy_threshold : ℕ
  pub check_type : HealthCheckType

abbrev pub default_config : HealthCheckConfig
default_config = record {
  interval = from_secs 10;
  timeout = from_secs 5;
  unhealthy_threshold = 3;
  healthy_threshold = 2;
  check_type = tcp;
}

pub record HealthStatus : Type 0 where
  pub healthy : Bool
  pub last_check : ℕ
  pub latency_ms : Option ℕ
  pub consecutive_failures : ℕ
  pub consecutive_successes : ℕ
  pub last_error : Option String

unfoldable pub default_status : ℕ → HealthStatus
default_status now = record {
  healthy = true;
  last_check = now;
  latency_ms = none;
  consecutive_failures = 0;
  consecutive_successes = 0;
  last_error = none;
}

pub data HealthCheckResult : Type 0 where
  success : ℕ → HealthCheckResult
  failure : String → ℕ → HealthCheckResult

unfoldable pub is_success : HealthCheckResult → Bool
is_success (success latency) = true
is_success (failure error latency) = false

unfoldable pub latency_of : HealthCheckResult → ℕ
latency_of (success latency) = latency
latency_of (failure error latency) = latency

unfoldable pub error_of : HealthCheckResult → Option String
error_of (success latency) = none
error_of (failure error latency) = some error

pub record HealthChecker : Type 0 where
  pub config : HealthCheckConfig
  pub status : List (String × HealthStatus)

unfoldable pub new_checker : HealthCheckConfig → HealthChecker
new_checker config = record { config = config; status = [] }

unfoldable pub get_status : HealthChecker → String → Option HealthStatus
get_status c id = lookup id c.status

unfoldable pub is_healthy : HealthChecker → String → Bool
is_healthy c id = elim (lookup id c.status) [ none ↦ true | some s ↦ s.healthy ]

-- The `match result` of `update_status`, on the entry.
unfoldable pub apply_result : HealthCheckConfig → HealthCheckResult → HealthStatus → HealthStatus
apply_result cfg (success latency) s =
    let counted = record s {
      consecutive_successes = inc32 s.consecutive_successes;
      consecutive_failures = 0;
      latency_ms = some latency;
      last_error = none;
    } in
    if not s.healthy && leb cfg.healthy_threshold (inc32 s.consecutive_successes)
    then record counted { healthy = true }
    else counted
apply_result cfg (failure error latency) s =
    let counted = record s {
      consecutive_failures = inc32 s.consecutive_failures;
      consecutive_successes = 0;
      latency_ms = some latency;
      last_error = some error;
    } in
    if s.healthy && leb cfg.unhealthy_threshold (inc32 s.consecutive_failures)
    then record counted { healthy = false }
    else counted

unfoldable pub changed : Bool → Bool → Bool
changed true h = not h
changed false h = h

unfoldable pub entry_of : HealthChecker → ℕ → String → HealthStatus
unfolding default_status
entry_of c now id = elim (lookup id c.status) [ none ↦ default_status now | some s ↦ s ]

-- The new state, and what the callback is called with, if it is.
unfoldable pub update_status :
    HealthChecker → ℕ → String → HealthCheckResult → HealthChecker × Option (String × Bool)
unfolding entry_of
update_status c now id result =
    let before = entry_of c now id in
    let after = record (apply_result c.config result before) { last_check = now } in
    (
      record c { status = insert id after c.status },
      if changed before.healthy after.healthy then some (id, after.healthy) else none,
    )

pub data HealthAction : Type 0 where
  health_changed : String → Bool → HealthAction
  no_change : HealthAction

unfoldable pub should_mark_unhealthy : HealthStatus → ℕ → Bool
should_mark_unhealthy s threshold = s.healthy && leb threshold s.consecutive_failures

unfoldable pub should_mark_healthy : HealthStatus → ℕ → Bool
should_mark_healthy s threshold = not s.healthy && leb threshold s.consecutive_successes

-- The `match result` of `calculate_health_transition`: the counts, and then the health.
unfoldable pub counted_by : HealthCheckResult → HealthStatus → HealthStatus
counted_by (success latency) s = record s {
  consecutive_successes = inc32 s.consecutive_successes;
  consecutive_failures = 0;
  latency_ms = some latency;
  last_error = none;
}
counted_by (failure error latency) s = record s {
  consecutive_failures = inc32 s.consecutive_failures;
  consecutive_successes = 0;
  latency_ms = some latency;
  last_error = some error;
}

unfoldable pub judged : HealthCheckConfig → HealthCheckResult → HealthStatus → HealthStatus
judged cfg (success latency) s =
    if not s.healthy && leb cfg.healthy_threshold s.consecutive_successes
    then record s { healthy = true }
    else s
judged cfg (failure error latency) s =
    if s.healthy && leb cfg.unhealthy_threshold s.consecutive_failures
    then record s { healthy = false }
    else s

unfoldable pub calculate_health_transition :
    HealthStatus → HealthCheckResult → HealthCheckConfig → HealthStatus × HealthAction
unfolding judged counted_by
calculate_health_transition s result cfg =
    let new_status = judged cfg result (counted_by result s) in
    (
      new_status,
      if changed s.healthy new_status.healthy
          then health_changed "" new_status.healthy
          else no_change,
    )
