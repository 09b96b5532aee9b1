-- ===== src/Geo.antt =====
-- src/adapters/outbound/maxmind_geo_resolver.rs: the place of an address. `lookup` is what the
-- MaxMind reader gives: an error, or a response whose country, and its code, may be missing.
use edgeproxy.Prelude.{String, Option, none, some, ◌>>=◌}
use edgeproxy.Net.{IpAddr}
use edgeproxy.Domain.{GeoInfo}
use edgeproxy.Domain.Region.{from_country}

abbrev pub Reader : Type 0
Reader = IpAddr → Option (Option (Option String))

pub record MaxMindGeoResolver : Type 0 where
  pub reader : Reader

-- `embedded` and `from_file`: the reader that the source gives, or an error.
unfoldable pub resolver_of : Option Reader → Option MaxMindGeoResolver
resolver_of none = none
resolver_of (some r) = some (record { reader = r })

unfoldable pub geo_info : String → GeoInfo
geo_info iso = record { country = iso; region = from_country iso }

unfoldable pub resolve : MaxMindGeoResolver → IpAddr → Option GeoInfo
unfolding geo_info
resolve g ip = do response ← g.reader ip; country ← response; iso ← country; some (geo_info iso)
