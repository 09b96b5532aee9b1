-- ===== src/Breaker/Blocking.antt =====
-- What an open circuit answers: `allow_request` until the reset timeout and after it.
use edgeproxy.Prelude.{
  ℕ, ◌+◌, ◌≤◌, ◌<◌, ◌≡◌, Bool, true, false, List, [], ◌∷◌, as_millis, arith, All,
}
use edgeproxy.Breaker.{
  CircuitBreakerConfig, BackendCircuit, opened, half_open, get_state, failure_circuit,
  success_circuit, allow_circuit, Call, step, run, fails, allows, succeeds, resets,
}

-- The answers to the requests among the calls.
unfoldable pub answers : CircuitBreakerConfig → List (ℕ × Call) → BackendCircuit → List Bool
answers cfg [] c = []
answers cfg ((now, allows) ∷ es) c =
    (allow_circuit cfg now c).1 ∷ answers cfg es (step cfg (now, allows) c)
answers cfg ((now, succeeds) ∷ es) c = answers cfg es (step cfg (now, succeeds) c)
answers cfg ((now, fails) ∷ es) c = answers cfg es (step cfg (now, fails) c)
answers cfg ((now, resets) ∷ es) c = answers cfg es (step cfg (now, resets) c)

-- A call between `from` and `until` that is no manual reset.
abbrev pub During : ℕ → ℕ → ℕ × Call → Type 0
During from until (now, resets) = ⊥
During from until (now, call) = (from ≤ now) × (now < until)

-- Open, since a time between `from` and `until`.
pub record OpenSince (from until : ℕ) (c : BackendCircuit) : Type 0 where
  pub is_open : get_state c ≡ opened
  pub after : from ≤ c.opened_at_ms
  pub before : c.opened_at_ms < until

module _ (cfg : CircuitBreakerConfig) (from : ℕ) where
  abbrev timeout : ℕ
  timeout = as_millis cfg.reset_timeout

  step-OpenSince :
      (e : ℕ × Call) (c : BackendCircuit)
      → During from (from + timeout) e
      → OpenSince from (from + timeout) c
      → OpenSince from (from + timeout) (step cfg e c)
  unfolding step allow_circuit success_circuit failure_circuit
  step-OpenSince (now, allows) c d o = ground arith
  step-OpenSince (now, succeeds) c d o = ground arith
  step-OpenSince (now, fails) c d o = ground arith
  step-OpenSince (now, resets) c d o = absurd d

  allow-OpenSince :
      (now : ℕ) (c : BackendCircuit)
      → now < from + timeout
      → OpenSince from (from + timeout) c
      → (allow_circuit cfg now c).1 ≡ false
  unfolding allow_circuit
  allow-OpenSince now c d o = ground arith

  opened-half_open :
      (now : ℕ) (c : BackendCircuit)
      → c.opened_at_ms + timeout ≤ now
      → get_state c ≡ opened
      → ((allow_circuit cfg now c).1 ≡ true) × (get_state (allow_circuit cfg now c).0 ≡ half_open)
  unfolding allow_circuit
  opened-half_open now c h o = ground arith

  -- An open circuit refuses every request that comes less than the reset timeout after it opened,
  -- through any sequence of requests, successes and failures; it stays open, and the first request
  -- that comes the timeout after the last failure is admitted and makes it half-open.
  pub blocked_until_timeout :
      (es : List (ℕ × Call)) (c : BackendCircuit) (now : ℕ)
      → OpenSince from (from + timeout) c
      → All (During from (from + timeout)) es
      → All (λ a. a ≡ false) (answers cfg es c)
        × (get_state (run cfg es c) ≡ opened)
        × ((run cfg es c).opened_at_ms + timeout ≤ now
            → ((allow_circuit cfg now (run cfg es c)).1 ≡ true)
              × (get_state (allow_circuit cfg now (run cfg es c)).0 ≡ half_open))
  unfolding answers run
  blocked_until_timeout [] c now o d = (tt, o.is_open, λ h. opened-half_open now c h o.is_open)
  blocked_until_timeout ((t, allows) ∷ es) c now o d =
      let (a, s, r) =
        blocked_until_timeout es (step cfg (t, allows) c) now (step-OpenSince (t, allows) c d.0 o)
          d.1 in
      ((allow-OpenSince t c d.0.1 o, a), s, r)
  blocked_until_timeout ((t, succeeds) ∷ es) c now o d =
      blocked_until_timeout es (step cfg (t, succeeds) c) now (step-OpenSince (t, succeeds) c d.0 o)
        d.1
  blocked_until_timeout ((t, fails) ∷ es) c now o d =
      blocked_until_timeout es (step cfg (t, fails) c) now (step-OpenSince (t, fails) c d.0 o) d.1
  blocked_until_timeout ((t, resets) ∷ es) c now o d = absurd d.0
