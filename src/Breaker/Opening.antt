-- ===== src/Breaker/Opening.antt =====
-- When failures open a circuit: `record_failure` on a closed circuit.
use edgeproxy.Prelude.{
  ℕ, ◌+◌, ◌-◌, ◌≤◌, ◌<◌, ◌≡◌, List, [], ◌∷◌, ◌++◌, length, as_millis, u32_mod, arith,
}
use edgeproxy.Breaker.{
  CircuitBreakerConfig, BackendCircuit, closed, opened, get_state, failure_circuit,
}

-- The failures at the given times, one after another.
unfoldable pub fail_at : CircuitBreakerConfig → List ℕ → BackendCircuit → BackendCircuit
fail_at cfg [] c = c
fail_at cfg (t ∷ ts) c = fail_at cfg ts (failure_circuit cfg t c)

-- Each time is within the window after the one before it.
abbrev pub Within : ℕ → ℕ → List ℕ → Type 0
Within window last [] = Unit {0}
Within window last (t ∷ ts) = (t - last ≤ window) × Within window t ts

-- Each time is past the window after the one before it.
abbrev pub Beyond : ℕ → ℕ → List ℕ → Type 0
Beyond window last [] = Unit {0}
Beyond window last (t ∷ ts) = (window < t - last) × Beyond window t ts

-- A failure within the window, in terms of the count alone.
pub failure-closed_within :
    (cfg : CircuitBreakerConfig) (t : ℕ) (c : BackendCircuit)
    → get_state c ≡ closed
    → t - c.last_failure_ms ≤ as_millis cfg.failure_window
    → c.failures + 1 < cfg.failure_threshold
    → cfg.failure_threshold < u32_mod
    → (get_state (failure_circuit cfg t c) ≡ closed)
      × ((failure_circuit cfg t c).failures ≡ c.failures + 1)
      × ((failure_circuit cfg t c).last_failure_ms ≡ t)
unfolding failure_circuit
failure-closed_within cfg t c s w h b = ground arith

-- The failure that reaches the threshold.
failure-closed_at :
    (cfg : CircuitBreakerConfig) (t : ℕ) (c : BackendCircuit)
    → get_state c ≡ closed
    → t - c.last_failure_ms ≤ as_millis cfg.failure_window
    → c.failures + 1 ≡ cfg.failure_threshold
    → cfg.failure_threshold < u32_mod
    → (get_state (failure_circuit cfg t c) ≡ opened) × ((failure_circuit cfg t c).opened_at_ms ≡ t)
unfolding failure_circuit
failure-closed_at cfg t c s w h b = ground arith

-- A closed circuit with no failures opens at the failure that reaches the threshold and not before,
-- if each failure is within the window after the one before it, and it is opened at that failure's
-- time.
pub fail_at_threshold :
    (cfg : CircuitBreakerConfig) (ts : List ℕ) (t : ℕ) (c : BackendCircuit)
    → get_state c ≡ closed
    → Within (as_millis cfg.failure_window) c.last_failure_ms (ts ++ t ∷ [])
    → c.failures + length ts + 1 ≡ cfg.failure_threshold
    → cfg.failure_threshold < u32_mod
    → (get_state (fail_at cfg ts c) ≡ closed)
      × (get_state (fail_at cfg (ts ++ t ∷ []) c) ≡ opened)
      × ((fail_at cfg (ts ++ t ∷ []) c).opened_at_ms ≡ t)
unfolding fail_at
fail_at_threshold cfg [] t c s w h b =
    let r = failure-closed_at cfg t c s w.0 (omega arith) b in (s, r.0, r.1)
fail_at_threshold cfg (u ∷ ts) t c s w h b =
    let (s', f', l') = failure-closed_within cfg u c s w.0 (omega arith) b in
    fail_at_threshold cfg ts t (failure_circuit cfg u c) s' (rw l' w.1) (omega arith) b

failure-closed_beyond :
    (cfg : CircuitBreakerConfig) (t : ℕ) (c : BackendCircuit)
    → get_state c ≡ closed
    → as_millis cfg.failure_window < t - c.last_failure_ms
    → (get_state (failure_circuit cfg t c) ≡ closed)
      × ((failure_circuit cfg t c).failures ≡ 1)
      × ((failure_circuit cfg t c).last_failure_ms ≡ t)
unfolding failure_circuit
failure-closed_beyond cfg t c s w = ground arith

-- Failures that each come past the window after the one before never open a closed circuit, whatever
-- the threshold is, 1 included: the count restarts at 1 and is not compared.
pub fail_at_sparse :
    (cfg : CircuitBreakerConfig) (ts : List ℕ) (c : BackendCircuit)
    → get_state c ≡ closed
    → Beyond (as_millis cfg.failure_window) c.last_failure_ms ts
    → get_state (fail_at cfg ts c) ≡ closed
unfolding fail_at
fail_at_sparse cfg [] c s w = s
fail_at_sparse cfg (t ∷ ts) c s w =
    let (s', _, l') = failure-closed_beyond cfg t c s w.0 in
    fail_at_sparse cfg ts (failure_circuit cfg t c) s' (rw l' w.1)
