-- ===== src/Health/Transition.antt =====
-- src/infrastructure/health_checker.rs: the pure transition against the one on the table.
use edgeproxy.Prelude.{
  ℕ, ◌≡◌, refl, ap, ◌∙◌, Bool, true, false, String, Option, none, some, if◌then◌else◌, lookup,
  lookup-insert, string_key, ◌==◌,
}
use edgeproxy.Health.{
  HealthCheckConfig, HealthStatus, HealthCheckResult, success, failure, HealthChecker, apply_result,
  changed, entry_of, update_status, HealthAction, health_changed, no_change, counted_by, judged,
  calculate_health_transition,
}

-- The callback of a change, for the backend `id`.
abbrev pub notice : String → HealthAction → Option (String × Bool)
notice id (health_changed _ h) = some (id, h)
notice id no_change = none

apply_result-judged :
    (cfg : HealthCheckConfig) (r : HealthCheckResult) (s : HealthStatus)
    → apply_result cfg r s ≡ judged cfg r (counted_by r s)
unfolding apply_result judged counted_by
apply_result-judged cfg (success l) s = refl
apply_result-judged cfg (failure e l) s = refl

notice_if :
    (b : Bool) (id : String) (h : Bool)
    → (if b then some (id, h) else none) ≡ notice id (if b then health_changed "" h else no_change)
notice_if true id h = refl
notice_if false id h = refl

-- `update_status` stores for the backend the status that `calculate_health_transition` gives for the
-- one it had, or the default one, with the time of the check; it leaves the other backends as they
-- were, and it calls the callback exactly when that function tells of a change, with the new health.
pub update_status-transition :
    (c : HealthChecker) (now : ℕ) (id other : String) (r : HealthCheckResult)
    → let (next, told) = update_status c now id r in
      let (status, action) = calculate_health_transition (entry_of c now id) r c.config in
      (lookup other next.status ≡ (
        if id == other then some (record status { last_check = now }) else lookup other c.status))
      × (told ≡ notice id action)
unfolding update_status calculate_health_transition
update_status-transition c now id other r =
    let had = entry_of c now id in
    let same = apply_result-judged c.config r had in
    (
      lookup-insert id other (record (apply_result c.config r had) { last_check = now }) c.status
          ∙ ap
              (λ (s : HealthStatus).
                if id == other then some (record s { last_check = now }) else lookup other c.status)
              same,
      ap
            (λ (s : HealthStatus).
              if changed had.healthy s.healthy then some (id, s.healthy) else none)
            same
          ∙ notice_if _ id _,
    )
