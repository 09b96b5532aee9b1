-- ===== src/Breaker/Examples.antt =====
-- Runs of the circuit breaker, and its theorems at concrete circuits.
use edgeproxy.Prelude.{
  ℕ, lookup, ◌+◌, ◌≡◌, refl, true, false, ◌≤◌, String, List, [], ◌∷◌, arith, as_millis, All,
}
use edgeproxy.Breaker.{
  CircuitBreakerConfig, BackendCircuit, default_config, new_circuit, closed, opened, half_open,
  get_state, failure_circuit, allow_circuit, Call, run, fails, allows, succeeds, new_breaker,
  state_of, display,
}
use edgeproxy.Breaker.Opening.{fail_at, fail_at_threshold}
use edgeproxy.Breaker.Blocking.{answers, blocked_until_timeout}
use edgeproxy.Breaker.Refinement.{view, spec_run, view-run}

abbrev trial : BackendCircuit
trial = record {
  state = 2;
  failures = 5;
  successes = 1;
  opened_at_ms = 1000;
  last_failure_ms = 900;
}

abbrev tripped : BackendCircuit
tripped = record {
  state = 1;
  failures = 5;
  successes = 0;
  opened_at_ms = 1000;
  last_failure_ms = 1000;
}

abbrev touchy : CircuitBreakerConfig
touchy = record default_config { failure_threshold = 1 }

five_failures :
    get_state (fail_at default_config (10 ∷ 20 ∷ 30 ∷ 40 ∷ 50 ∷ []) new_circuit) ≡ opened
unfolding fail_at failure_circuit as_millis
five_failures = refl

open_name : display opened ≡ "open"
unfolding display
open_name = refl

unknown_backend : state_of (new_breaker default_config) "b1" ≡ closed
unfolding state_of new_breaker lookup
unknown_backend = refl

fail_at_threshold_example :
    (get_state (fail_at default_config (10 ∷ 20 ∷ 30 ∷ 40 ∷ []) new_circuit) ≡ closed)
    × (get_state (fail_at default_config (10 ∷ 20 ∷ 30 ∷ 40 ∷ 50 ∷ []) new_circuit) ≡ opened)
    × ((fail_at default_config (10 ∷ 20 ∷ 30 ∷ 40 ∷ 50 ∷ []) new_circuit).opened_at_ms ≡ 50)
unfolding get_state as_millis
fail_at_threshold_example =
    fail_at_threshold default_config (10 ∷ 20 ∷ 30 ∷ 40 ∷ []) 50 new_circuit refl (omega arith)
      (omega arith) (omega arith)

abbrev storm : List (ℕ × Call)
storm = (2000, allows) ∷ (3000, fails) ∷ (30_000, allows) ∷ []

blocked_until_timeout_example :
    All (λ a. a ≡ false) (answers default_config storm tripped)
    × (get_state (run default_config storm tripped) ≡ opened)
    × ((run default_config storm tripped).opened_at_ms + as_millis default_config.reset_timeout
          ≤ 40_000
        → ((allow_circuit default_config 40_000 (run default_config storm tripped)).1 ≡ true)
          × (get_state (allow_circuit default_config 40_000 (run default_config storm tripped)).0
              ≡ half_open))
unfolding get_state as_millis
blocked_until_timeout_example =
    blocked_until_timeout default_config 1000 storm tripped 40_000
      (record { is_open = refl; after = omega arith; before = omega arith }) (omega arith)

abbrev probed : BackendCircuit
probed = run default_config ((1, succeeds) ∷ (2, allows) ∷ []) trial

view-run_example :
    view (run default_config storm tripped) ≡ spec_run default_config storm (view tripped)
view-run_example = view-run default_config storm tripped

abbrev traffic : List (String × (ℕ × Call))
traffic = ("b1", (10, fails)) ∷ ("b2", (20, allows)) ∷ ("b1", (30, fails)) ∷ []
