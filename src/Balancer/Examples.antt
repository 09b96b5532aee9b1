-- ===== src/Balancer/Examples.antt =====
-- Choices of the load balancer, and its theorems at concrete backends, over whole numbers for `f64`.
use edgeproxy.Prelude.{
  ℕ, ◌≡◌, ◌≤◌, refl, true, false, String, List, [], ◌∷◌, Option, none, some, if◌then◌else◌, All,
  Elem, here, arith, ◌⊎◌, ◌==◌, string_key,
}
use edgeproxy.Float.{whole, whole_laws}
use edgeproxy.Domain.{Backend, GeoInfo}
use edgeproxy.Domain.Region.{south_america, europe, from_country}
use edgeproxy.Balancer.{
  geo_tier, weighted_load, score, eligible, better, scan, pick_backend, calculate_all_scores,
}
use edgeproxy.Balancer.Choice.{Picked, pick_backend-Picked}
use edgeproxy.Balancer.Priority.{has_room, pick_backend-has_room, pick_backend-geo_tier}

abbrev saopaulo : Backend
saopaulo = record {
  id = "sa-1";
  app = "app";
  region = south_america;
  country = "BR";
  wg_ip = "10.0.0.1";
  port = 8080;
  healthy = true;
  weight = 1;
  soft_limit = 1;
  hard_limit = 100;
}

abbrev paris : Backend
paris = record saopaulo { id = "eu-1"; region = europe; country = "FR" }

abbrev backends : List Backend
backends = paris ∷ saopaulo ∷ []

abbrev brazilian : Option GeoInfo
brazilian = some (record { country = "BR"; region = south_america })

abbrev connections : String → ℕ
connections id = if id == "sa-1" then 50 else 2

picks_the_country : pick_backend whole europe brazilian connections backends ≡ some saopaulo
unfolding pick_backend scan better eligible score weighted_load geo_tier
picks_the_country = refl

scores :
    calculate_all_scores whole europe brazilian connections backends
    ≡ ("eu-1", 202) ∷ ("sa-1", 50) ∷ []
unfolding calculate_all_scores score weighted_load geo_tier
scores = refl

country_of_ukraine : from_country "ua" ≡ europe
unfolding from_country
country_of_ukraine = refl

pick_backend-Picked_example :
    Picked whole_laws europe brazilian connections backends
      (pick_backend whole europe brazilian connections backends)
pick_backend-Picked_example = pick_backend-Picked whole_laws europe brazilian connections backends

pick_backend-has_room_example :
    ((pick_backend whole europe brazilian connections backends ≡ none)
      × All (λ c. has_room connections c ≡ false) backends)
    ⊎ ((b : Backend) × (pick_backend whole europe brazilian connections backends ≡ some b)
        × Elem b backends
        × (has_room connections b ≡ true))
pick_backend-has_room_example =
    pick_backend-has_room whole_laws europe brazilian connections backends (omega arith)

pick_backend-geo_tier_example : geo_tier saopaulo europe brazilian ≤ geo_tier paris europe brazilian
unfolding pick_backend scan better eligible score weighted_load geo_tier
pick_backend-geo_tier_example =
    pick_backend-geo_tier whole_laws europe brazilian connections backends refl
      (here paris (saopaulo ∷ []) refl) refl refl
