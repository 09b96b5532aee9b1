-- ===== src/Breaker.antt =====
-- src/infrastructure/circuit_breaker.rs: the circuit breaker of each backend.
-- The clock `now_ms()` is the argument `now` of each call. A `u32` counter wraps, as in a release
-- build; the calls run one after another.
pub mod Opening
pub mod Blocking
pub mod Recovery
pub mod Refinement
pub mod Isolation
mod Examples
use edgeproxy.Prelude.{
  ℕ, Bool, true, false, String, List, [], ◌∷◌, none, some, map, if◌then◌else◌, leb, ltb, nat_beq,
  inc32, saturating_sub, Duration, from_secs, as_millis, lookup, insert, string_key,
}

pub record CircuitBreakerConfig : Type 0 where
  pub failure_threshold : ℕ
  pub reset_timeout : Duration
  pub success_threshold : ℕ
  pub failure_window : Duration

abbrev pub default_config : CircuitBreakerConfig
default_config = record {
  failure_threshold = 5;
  reset_timeout = from_secs 30;
  success_threshold = 3;
  failure_window = from_secs 60;
}

pub data CircuitState : Type 0 where
  closed opened half_open : CircuitState

unfoldable pub display : CircuitState → String
display closed = "closed"
display opened = "open"
display half_open = "half-open"

pub record BackendCircuit : Type 0 where
  pub state : ℕ
  pub failures : ℕ
  pub successes : ℕ
  pub opened_at_ms : ℕ
  pub last_failure_ms : ℕ

abbrev pub new_circuit : BackendCircuit
new_circuit = record {
  state = 0;
  failures = 0;
  successes = 0;
  opened_at_ms = 0;
  last_failure_ms = 0;
}

unfoldable pub get_state : BackendCircuit → CircuitState
get_state c = if nat_beq c.state 0 then closed else if nat_beq c.state 1 then opened else half_open

unfoldable pub state_code : CircuitState → ℕ
state_code closed = 0
state_code opened = 1
state_code half_open = 2

unfoldable pub set_state : CircuitState → BackendCircuit → BackendCircuit
unfolding state_code
set_state s c = record c { state = state_code s }

-- The body of `allow_request`, behind `get_or_create`.
unfoldable pub allow_in :
    CircuitState → CircuitBreakerConfig → ℕ → BackendCircuit → BackendCircuit × Bool
unfolding set_state
allow_in closed cfg now c = (c, true)
allow_in opened cfg now c =
    if leb (as_millis cfg.reset_timeout) (saturating_sub now c.opened_at_ms)
    then (record (set_state half_open c) { successes = 0 }, true)
    else (c, false)
allow_in half_open cfg now c = (c, true)

unfoldable pub allow_circuit : CircuitBreakerConfig → ℕ → BackendCircuit → BackendCircuit × Bool
unfolding allow_in get_state
allow_circuit cfg now c = allow_in (get_state c) cfg now c

-- The body of `record_success`.
unfoldable pub success_in : CircuitState → CircuitBreakerConfig → BackendCircuit → BackendCircuit
unfolding set_state
success_in half_open cfg c =
    if leb cfg.success_threshold (inc32 c.successes)
    then record (set_state closed c) { failures = 0; successes = 0 }
    else record c { successes = inc32 c.successes }
success_in closed cfg c = record c { failures = 0 }
success_in opened cfg c = c

unfoldable pub success_circuit : CircuitBreakerConfig → BackendCircuit → BackendCircuit
unfolding success_in get_state
success_circuit cfg c = success_in (get_state c) cfg c

-- The body of `record_failure`.
unfoldable pub count_failure : CircuitBreakerConfig → ℕ → BackendCircuit → BackendCircuit
unfolding set_state
count_failure cfg now c =
    if leb cfg.failure_threshold (inc32 c.failures)
    then record (set_state opened c) { failures = inc32 c.failures; opened_at_ms = now }
    else record c { failures = inc32 c.failures }

unfoldable pub failure_in :
    CircuitState → CircuitBreakerConfig → ℕ → BackendCircuit → BackendCircuit
unfolding count_failure set_state
failure_in closed cfg now c =
    if ltb (as_millis cfg.failure_window) (saturating_sub now c.last_failure_ms)
    then record c { failures = 1; last_failure_ms = now }
    else record (count_failure cfg now c) { last_failure_ms = now }
failure_in half_open cfg now c = record (set_state opened c) { opened_at_ms = now; successes = 0 }
failure_in opened cfg now c = record c { opened_at_ms = now }

unfoldable pub failure_circuit : CircuitBreakerConfig → ℕ → BackendCircuit → BackendCircuit
unfolding failure_in get_state
failure_circuit cfg now c = failure_in (get_state c) cfg now c

-- The body of `reset`.
unfoldable pub reset_circuit : BackendCircuit → BackendCircuit
unfolding set_state
reset_circuit c = record (set_state closed c) { failures = 0; successes = 0 }

pub record CircuitBreaker : Type 0 where
  pub config : CircuitBreakerConfig
  pub circuits : List (String × BackendCircuit)

unfoldable pub new_breaker : CircuitBreakerConfig → CircuitBreaker
new_breaker cfg = record { config = cfg; circuits = [] }

-- The circuit that `get_or_create` hands out, and the breaker after it.
unfoldable pub circuit_of : CircuitBreaker → String → BackendCircuit
circuit_of b id = elim (lookup id b.circuits) [ none ↦ new_circuit | some c ↦ c ]

unfoldable pub store : CircuitBreaker → String → BackendCircuit → CircuitBreaker
store b id c = record b { circuits = insert id c b.circuits }

unfoldable pub allow_request : CircuitBreaker → String → ℕ → CircuitBreaker × Bool
unfolding circuit_of store
allow_request b id now =
    let (c, allowed) = allow_circuit b.config now (circuit_of b id) in (store b id c, allowed)

unfoldable pub record_success : CircuitBreaker → String → CircuitBreaker
unfolding circuit_of store
record_success b id = store b id (success_circuit b.config (circuit_of b id))

unfoldable pub record_failure : CircuitBreaker → String → ℕ → CircuitBreaker
unfolding circuit_of store
record_failure b id now = store b id (failure_circuit b.config now (circuit_of b id))

unfoldable pub state_of : CircuitBreaker → String → CircuitState
state_of b id = elim (lookup id b.circuits) [ none ↦ closed | some c ↦ get_state c ]

pub record CircuitMetrics : Type 0 where
  pub state : CircuitState
  pub failures : ℕ
  pub successes : ℕ

unfoldable pub metrics_of : CircuitBreaker → String → CircuitMetrics
metrics_of b id = elim (lookup id b.circuits) [
  | none ↦ record { state = closed; failures = 0; successes = 0 }
  | some c ↦ record { state = get_state c; failures = c.failures; successes = c.successes }
]

unfoldable pub all_states : CircuitBreaker → List (String × CircuitState)
all_states b = map (λ e. (e.0, get_state e.1)) b.circuits

unfoldable pub reset : CircuitBreaker → String → CircuitBreaker
unfolding store
reset b id = elim (lookup id b.circuits) [ none ↦ b | some c ↦ store b id (reset_circuit c) ]

unfoldable pub clear_all : CircuitBreaker → CircuitBreaker
clear_all b = record b { circuits = [] }

-- A call on one backend's circuit.
pub data Call : Type 0 where
  allows succeeds fails resets : Call

unfoldable pub step : CircuitBreakerConfig → ℕ × Call → BackendCircuit → BackendCircuit
step cfg (now, allows) c = (allow_circuit cfg now c).0
step cfg (now, succeeds) c = success_circuit cfg c
step cfg (now, fails) c = failure_circuit cfg now c
step cfg (now, resets) c = reset_circuit c

unfoldable pub run : CircuitBreakerConfig → List (ℕ × Call) → BackendCircuit → BackendCircuit
run cfg [] c = c
run cfg (e ∷ es) c = run cfg es (step cfg e c)
