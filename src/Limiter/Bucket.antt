-- ===== src/Limiter/Bucket.antt =====
-- One client's bucket: what a check does to its tokens.
use edgeproxy.Prelude.{
  ℕ, zero, suc, ◌+◌, ◌-◌, ◌≤◌, ◌<◌, ◌≡◌, refl, List, [], ◌∷◌, if◌then◌else◌, u64_mod, arith,
}
use edgeproxy.Float.{F64}
use edgeproxy.Limiter.{ClientState, RateLimiter, consume, tokens_to_add, refill, check_client}

-- The spurious failures of the exchange do not show in the result.
pub consume_lem :
    (failures current cost : ℕ) → consume failures current cost ≡ consume 0 current cost
unfolding consume
consume_lem zero current cost = refl
consume_lem (suc n) current cost = ground (arith, consume_lem n current cost)

consume_bounds :
    (failures current cost : ℕ)
    → (consume failures current cost).0 + (if (consume failures current cost).1 then cost else 0)
      ≡ current
unfolding consume
consume_bounds zero current cost = ground arith
consume_bounds (suc n) current cost = ground (arith, consume_bounds n current cost)

module _ {f : F64} (l : RateLimiter f) where
  refill-tokens-le :
      (now : ℕ) (s : ClientState) → (refill l now s).tokens ≤ s.tokens + tokens_to_add l now s
  unfolding refill
  refill-tokens-le now s = ground arith

  pub refill-capped :
      (now : ℕ) (s : ClientState)
      → s.tokens ≤ l.config.burst_size
      → (refill l now s).tokens ≤ l.config.burst_size
  unfolding refill
  refill-capped now s h = ground arith

  pub check_client_balance :
      (failures now cost : ℕ) (s : ClientState)
      → (check_client l failures now cost s).0.tokens
          + (if (check_client l failures now cost s).1 then cost else 0)
        ≡ (refill l now s).tokens
  unfolding check_client
  check_client_balance failures now cost s = consume_bounds failures (refill l now s).tokens cost

  -- The costs of the requests that are admitted, and the tokens that come in, over a history of
  -- requests: each with the spurious failures met, its time and its cost.
  unfoldable pub spent : List (ℕ × ℕ × ℕ) → ClientState → ℕ
  spent [] s = 0
  spent ((failures, now, cost) ∷ es) s =
      (if (check_client l failures now cost s).1 then cost else 0)
      + spent es (check_client l failures now cost s).0

  unfoldable pub refilled : List (ℕ × ℕ × ℕ) → ClientState → ℕ
  refilled [] s = 0
  refilled ((failures, now, cost) ∷ es) s =
      tokens_to_add l now s + refilled es (check_client l failures now cost s).0

  -- Over any history of requests the admitted costs are at most the tokens that the client had and
  -- those that came in.
  pub spent-le-refilled :
      (es : List (ℕ × ℕ × ℕ)) (s : ClientState) → spent es s ≤ s.tokens + refilled es s
  unfolding spent refilled
  spent-le-refilled [] s = omega arith
  spent-le-refilled ((failures, now, cost) ∷ es) s = omega (
    arith,
    spent-le-refilled es (check_client l failures now cost s).0,
    check_client_balance failures now cost s,
    refill-tokens-le now s,
  )

  -- When the amount to add saturates a `u64`, as it does for a rate that is infinite, the sum with
  -- the tokens at hand wraps: the refill takes one token away from a client that has any.
  pub refill_saturated :
      (now : ℕ) (s : ClientState)
      → tokens_to_add l now s ≡ u64_mod - 1
      → 0 < s.tokens
      → s.tokens ≤ l.config.burst_size
      → s.tokens < u64_mod
      → (refill l now s).tokens + 1 ≡ s.tokens
  unfolding refill
  refill_saturated now s e h c b = ground arith
