-- ===== src/Breaker/Refinement.antt =====
-- The breaker's specification: a state machine that keeps only what its state needs.
use edgeproxy.Prelude.{
  ℕ, ◌-◌, ◌≡◌, refl, List, [], ◌∷◌, as_millis, arith, if◌then◌else◌, leb, ltb, inc32, ◌∙◌, ap,
}
use edgeproxy.Breaker.{
  CircuitBreakerConfig, BackendCircuit, CircuitState, closed, opened, half_open, get_state,
  failure_circuit, success_circuit, allow_circuit, reset_circuit, Call, step, run, fails, allows,
  succeeds, resets,
}

-- The failures counted, the time of opening, or the successes counted; each with the time of the
-- last failure that was counted.
pub data Phase : Type 0 where
  counting waiting probing : ℕ → ℕ → Phase

abbrev pub view_in : CircuitState → BackendCircuit → Phase
view_in closed c = counting c.failures c.last_failure_ms
view_in opened c = waiting c.opened_at_ms c.last_failure_ms
view_in half_open c = probing c.successes c.last_failure_ms

unfoldable pub view : BackendCircuit → Phase
unfolding get_state
view c = view_in (get_state c) c

unfoldable pub spec : CircuitBreakerConfig → ℕ → Call → Phase → Phase
spec cfg now allows (waiting since last) =
    if leb (as_millis cfg.reset_timeout) (now - since) then probing 0 last else waiting since last
spec cfg now succeeds (counting n last) = counting 0 last
spec cfg now succeeds (probing n last) =
    if leb cfg.success_threshold (inc32 n) then counting 0 last else probing (inc32 n) last
spec cfg now fails (counting n last) =
    if ltb (as_millis cfg.failure_window) (now - last)
    then counting 1 now
    else if leb cfg.failure_threshold (inc32 n)
    then waiting now now
    else counting (inc32 n) now
spec cfg now fails (waiting since last) = waiting now last
spec cfg now fails (probing n last) = waiting now last
spec cfg now resets (counting n last) = counting 0 last
spec cfg now resets (waiting since last) = counting 0 last
spec cfg now resets (probing n last) = counting 0 last
spec cfg now call p = p

unfoldable pub spec_run : CircuitBreakerConfig → List (ℕ × Call) → Phase → Phase
spec_run cfg [] p = p
spec_run cfg ((now, call) ∷ es) p = spec_run cfg es (spec cfg now call p)

view-step :
    (cfg : CircuitBreakerConfig) (now : ℕ) (call : Call) (c : BackendCircuit)
    → view (step cfg (now, call) c) ≡ spec cfg now call (view c)
unfolding view spec step allow_circuit success_circuit failure_circuit reset_circuit
view-step cfg now allows c = ground arith
view-step cfg now succeeds c = ground arith
view-step cfg now fails c = ground arith
view-step cfg now resets c = ground arith

-- Through every sequence of calls on a circuit its five numbers behave as the specification's phase
-- does: what the other numbers hold, left over from earlier states, never matters.
pub view-run :
    (cfg : CircuitBreakerConfig) (es : List (ℕ × Call)) (c : BackendCircuit)
    → view (run cfg es c) ≡ spec_run cfg es (view c)
unfolding run spec_run
view-run cfg [] c = refl
view-run cfg ((now, call) ∷ es) c =
    view-run cfg es (step cfg (now, call) c) ∙ ap (spec_run cfg es) (view-step cfg now call c)
