-- ===== src/Balancer.antt =====
-- src/domain/services/load_balancer.rs: the choice of a backend. Scores are `f64`, taken as an
-- interface; `get_conn_count` is an argument.
pub mod Choice
pub mod Priority
mod Examples
use edgeproxy.Prelude.{
  ℕ, Bool, true, false, ◌&&◌, not, String, List, [], ◌∷◌, Option, none, some, if◌then◌else◌,
  nat_beq, ◌==◌, string_key, retain, map,
}
use edgeproxy.Float.{F64}
use edgeproxy.Domain.{Backend, GeoInfo}
use edgeproxy.Domain.Region.{RegionCode, region_key}

-- The number that `calculate_geo_score` gives as an `f64`.
unfoldable pub geo_tier : Backend → RegionCode → Option GeoInfo → ℕ
geo_tier b local none = if b.region == local then 2 else 3
geo_tier b local (some geo) =
    if b.country == geo.country
    then 0
    else if b.region == geo.region
    then 1
    else if b.region == local
    then 2
    else 3

module _ (f : F64) where
  unfoldable pub calculate_geo_score : Backend → RegionCode → Option GeoInfo → f.F
  calculate_geo_score b local geo = f.of_nat (geo_tier b local geo)

  -- A limit or weight of 0 has a stand-in.
  unfoldable pub soft_of : Backend → f.F
  soft_of b = if nat_beq b.soft_limit 0 then f.of_nat 1 else f.of_nat b.soft_limit

  unfoldable pub hard_of : Backend → f.F
  hard_of b = if nat_beq b.hard_limit 0 then f.max_value else f.of_nat b.hard_limit

  unfoldable pub weight_of : Backend → f.F
  weight_of b = if nat_beq b.weight 0 then f.of_nat 1 else f.of_nat b.weight

  -- `load_factor / weight`, at the connection count `current`.
  unfoldable pub weighted_load : Backend → ℕ → f.F
  unfolding soft_of weight_of
  weighted_load b current = f.div (f.div (f.of_nat current) (soft_of b)) (weight_of b)

  module _ (local : RegionCode) (geo : Option GeoInfo) (get_conn_count : String → ℕ) where
    unfoldable pub score : Backend → f.F
    unfolding calculate_geo_score
    score b =
        f.add (f.mul (calculate_geo_score b local geo) (f.of_nat 100))
          (weighted_load b (get_conn_count b.id))

    -- What the loop passes over: a backend that is unhealthy, or at its hard limit.
    unfoldable pub eligible : Backend → Bool
    unfolding hard_of
    eligible b = b.healthy && not (f.ge (f.of_nat (get_conn_count b.id)) (hard_of b))

    -- The `match &best`: the first backend, or one with a lower score, replaces the best so far.
    unfoldable pub better : Option (Backend × f.F) → Backend → Option (Backend × f.F)
    better none b = some (b, score b)
    better (some (a, s)) b = if f.lt (score b) s then some (b, score b) else some (a, s)

    unfoldable pub scan : Option (Backend × f.F) → List Backend → Option (Backend × f.F)
    scan best [] = best
    scan best (b ∷ bs) = scan (if eligible b then better best b else best) bs

    unfoldable pub pick_backend : List Backend → Option Backend
    pick_backend bs = elim (scan none bs) [ none ↦ none | some (b, _) ↦ some b ]

    unfoldable pub calculate_all_scores : List Backend → List (String × f.F)
    calculate_all_scores bs = map (λ b. (b.id, score b)) (retain (λ b. b.healthy) bs)
