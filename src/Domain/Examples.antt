-- ===== src/Domain/Examples.antt =====
-- Regions read from texts, and their round trip at one region.
use edgeproxy.Prelude.{◌≡◌, refl}
use edgeproxy.Domain.Region.{north_america, europe, from_str, from_country}

upper_case_code : from_str "EU" ≡ europe
unfolding from_str
upper_case_code = refl

unknown_country : from_country "zz" ≡ north_america
unfolding from_country
unknown_country = refl
