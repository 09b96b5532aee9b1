-- ===== src/Breaker/Recovery.antt =====
-- How a half-open circuit closes or opens again.
use edgeproxy.Prelude.{ℕ, ◌+◌, ◌≤◌, ◌<◌, ◌≡◌, List, [], ◌∷◌, u32_mod, arith, All}
use edgeproxy.Breaker.{
  CircuitBreakerConfig, BackendCircuit, closed, opened, half_open, get_state, failure_circuit,
  success_circuit, allow_circuit, Call, step, run, fails, allows, succeeds, resets,
}

-- The successes among calls that are requests and successes only.
abbrev pub Probes : ℕ × Call → Type 0
Probes (now, fails) = ⊥
Probes (now, resets) = ⊥
Probes (now, call) = Unit {0}

abbrev pub successes_in : List (ℕ × Call) → ℕ
successes_in [] = 0
successes_in ((now, succeeds) ∷ es) = successes_in es + 1
successes_in (e ∷ es) = successes_in es

module _ (cfg : CircuitBreakerConfig) (bounded : cfg.success_threshold < u32_mod) where
  success-half_open :
      (c : BackendCircuit)
      → get_state c ≡ half_open
      → c.successes + 1 < cfg.success_threshold
      → (get_state (success_circuit cfg c) ≡ half_open)
        × ((success_circuit cfg c).successes ≡ c.successes + 1)
  unfolding success_circuit
  success-half_open c s h = ground arith

  allow-half_open :
      (now : ℕ) (c : BackendCircuit)
      → get_state c ≡ half_open
      → (get_state (allow_circuit cfg now c).0 ≡ half_open)
        × ((allow_circuit cfg now c).0.successes ≡ c.successes)
  unfolding allow_circuit
  allow-half_open now c s = ground arith

  success-closes :
      (c : BackendCircuit)
      → get_state c ≡ half_open
      → c.successes + 1 ≡ cfg.success_threshold
      → (get_state (success_circuit cfg c) ≡ closed)
        × ((success_circuit cfg c).failures ≡ 0)
        × ((success_circuit cfg c).successes ≡ 0)
  unfolding success_circuit
  success-closes c s h = ground arith

  failure-reopens :
      (now : ℕ) (c : BackendCircuit)
      → get_state c ≡ half_open
      → (get_state (failure_circuit cfg now c) ≡ opened)
        × ((failure_circuit cfg now c).opened_at_ms ≡ now)
        × ((failure_circuit cfg now c).successes ≡ 0)
  unfolding failure_circuit
  failure-reopens now c s = ground arith

  run-half_open :
      (es : List (ℕ × Call)) (c : BackendCircuit)
      → get_state c ≡ half_open
      → All Probes es
      → c.successes + successes_in es + 1 ≤ cfg.success_threshold
      → (get_state (run cfg es c) ≡ half_open)
        × ((run cfg es c).successes ≡ c.successes + successes_in es)
  unfolding run step
  run-half_open [] c s p h = (s, omega arith)
  run-half_open ((t, allows) ∷ es) c s p h =
      let (s', n) = allow-half_open t c s in
      let (s'', n') = run-half_open es (allow_circuit cfg t c).0 s' p.1 (omega arith) in
      (s'', omega arith)
  run-half_open ((t, succeeds) ∷ es) c s p h =
      let (s', n) = success-half_open c s (omega arith) in
      let (s'', n') = run-half_open es (success_circuit cfg c) s' p.1 (omega arith) in
      (s'', omega arith)
  run-half_open ((t, fails) ∷ es) c s p h = absurd p.0
  run-half_open ((t, resets) ∷ es) c s p h = absurd p.0

  -- A half-open circuit stays so through requests and successes until the success that reaches the
  -- threshold, which closes it with both counts at 0; a failure before that opens it again, at the
  -- failure's time and with the successes forgotten.
  pub probation :
      (es : List (ℕ × Call)) (c : BackendCircuit) (now : ℕ)
      → get_state c ≡ half_open
      → All Probes es
      → c.successes + successes_in es + 1 ≡ cfg.success_threshold
      → (get_state (run cfg es c) ≡ half_open)
        × (get_state (success_circuit cfg (run cfg es c)) ≡ closed)
        × ((success_circuit cfg (run cfg es c)).failures ≡ 0)
        × ((success_circuit cfg (run cfg es c)).successes ≡ 0)
        × (get_state (failure_circuit cfg now (run cfg es c)) ≡ opened)
        × ((failure_circuit cfg now (run cfg es c)).opened_at_ms ≡ now)
        × ((failure_circuit cfg now (run cfg es c)).successes ≡ 0)
  probation es c now s p h =
      let (s', n) = run-half_open es c s p (omega arith) in
      let (a, b, d) = success-closes (run cfg es c) s' (omega arith) in
      let (f, g, k) = failure-reopens now (run cfg es c) s' in (s', a, b, d, f, g, k)
