-- ===== src/Breaker/Isolation.antt =====
-- The breaker as a whole: `DashMap` of circuits, one for each backend.
use edgeproxy.Prelude.{
  ℕ, ◌≡◌, refl, String, List, [], ◌∷◌, arith, if◌then◌else◌, ◌==◌, string_key, lookup,
  lookup-insert, Option-cases, Bool-cases, ◌∙◌, inl, inr,
}
use text.Mathlib.TextEquality.{eq_iff}
use edgeproxy.Breaker.{
  BackendCircuit, CircuitBreaker, circuit_of, store, new_circuit, set_state, reset_circuit, Call,
  step, run, fails, allows, succeeds, resets, allow_request, record_success, record_failure, reset,
}

-- A call on the backend `id`.
unfoldable pub apply : CircuitBreaker → String → ℕ × Call → CircuitBreaker
apply b id (now, allows) = (allow_request b id now).0
apply b id (now, succeeds) = record_success b id
apply b id (now, fails) = record_failure b id now
apply b id (now, resets) = reset b id

unfoldable pub apply_all : CircuitBreaker → List (String × (ℕ × Call)) → CircuitBreaker
apply_all b [] = b
apply_all b ((id, e) ∷ es) = apply_all (apply b id e) es

-- The calls on one backend.
abbrev pub calls_on : String → List (String × (ℕ × Call)) → List (ℕ × Call)
calls_on j [] = []
calls_on j ((id, e) ∷ es) = if id == j then e ∷ calls_on j es else calls_on j es

circuit_of-store :
    (b : CircuitBreaker) (id j : String) (c : BackendCircuit)
    → circuit_of (store b id c) j ≡ (if id == j then c else circuit_of b j)
unfolding circuit_of store
circuit_of-store b id j c = ground (arith, lookup-insert id j c b.circuits)

reset_absent : reset_circuit new_circuit ≡ new_circuit
unfolding reset_circuit set_state
reset_absent = refl

circuit_of-reset :
    (b : CircuitBreaker) (id j : String)
    → circuit_of (reset b id) j
      ≡ (if id == j then reset_circuit (circuit_of b id) else circuit_of b j)
unfolding reset circuit_of store
circuit_of-reset b id j = elim (Option-cases (lookup id b.circuits)) [
  | inl e ↦ ground (arith, eq_iff id j, reset_absent)
  | inr (c, e) ↦ ground (arith, eq_iff id j, lookup-insert id j (reset_circuit c) b.circuits)
]

config-reset : (b : CircuitBreaker) (id : String) → (reset b id).config ≡ b.config
unfolding reset
config-reset b id = ground arith

circuit_of-apply :
    (b : CircuitBreaker) (id j : String) (e : ℕ × Call)
    → (circuit_of (apply b id e) j
        ≡ (if id == j then step b.config e (circuit_of b id) else circuit_of b j))
      × ((apply b id e).config ≡ b.config)
unfolding apply step allow_request record_success record_failure
circuit_of-apply b id j (now, allows) = (circuit_of-store b id j _, refl)
circuit_of-apply b id j (now, succeeds) = (circuit_of-store b id j _, refl)
circuit_of-apply b id j (now, fails) = (circuit_of-store b id j _, refl)
circuit_of-apply b id j (now, resets) = (circuit_of-reset b id j, config-reset b id)

-- After any sequence of calls a backend's circuit is what its own calls alone make of it: the calls
-- on other backends neither change it nor create it.
pub circuit_of-apply_all :
    (es : List (String × (ℕ × Call))) (b : CircuitBreaker) (j : String)
    → circuit_of (apply_all b es) j ≡ run b.config (calls_on j es) (circuit_of b j)
unfolding apply_all run
circuit_of-apply_all [] b j = refl
circuit_of-apply_all ((id, e) ∷ es) b j =
    let (p, q) = circuit_of-apply b id j e in
    let ih = circuit_of-apply_all es (apply b id e) j in
    elim (Bool-cases (id == j)) [
      | inl hit ↦
          let first : circuit_of (apply b id e) j ≡ step b.config e (circuit_of b j) =
            cc (rw hit at p, (eq_iff id j).0 hit) in
          let rest : run (apply b id e).config (calls_on j es) (circuit_of (apply b id e) j)
              ≡ run b.config (calls_on j es) (step b.config e (circuit_of b j)) =
            cc (q, first) in
          rw hit (ih ∙ rest)
      | inr miss ↦ rw miss (cc (ih, q, rw miss at p))
    ]
