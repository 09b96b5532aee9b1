-- ===== src/Dns/Examples.antt =====
-- Queries to the DNS server, and its theorems at concrete names.
use edgeproxy.Prelude.{◌≡◌, refl, true, false, [], ◌∷◌, none, some}
use edgeproxy.Float.{whole, whole_laws}
use edgeproxy.Net.{v4, SocketAddr}
use edgeproxy.Domain.{Backend}
use edgeproxy.Domain.Region.{south_america, europe}
use edgeproxy.Repository.{SqliteBackendRepository, repository_of, repository_of-laws}
use edgeproxy.Proxy.{ProxyService}
use edgeproxy.Proxy.Locality.{LeavesOthers}
use edgeproxy.Dns.{
  DnsHandler, default_dns_config, ends_with, strip_suffix, trim_end_dots, parse_ipv4, in_domain,
  app_name, handle_request, handle_packet, new_dns_server,
}
use edgeproxy.Dns.Answering.{Answered, handle_request-Answered}

texts :
    (trim_end_dots "shop.internal.." ≡ "shop.internal")
    × (ends_with "shop.internal" ".internal" ≡ true)
    × (strip_suffix "shop.internal" ".internal" ≡ some "shop")
    × (strip_suffix "shop.example" ".internal" ≡ none)
unfolding trim_end_dots strip_suffix
texts = (refl, refl, refl, refl)

addresses :
    (parse_ipv4 "10.0.0.1" ≡ some 0x0a000001)
    × (parse_ipv4 "255.255.255.255" ≡ some 0xffffffff)
    × (parse_ipv4 "10.0.0.256" ≡ none)
    × (parse_ipv4 "10.0.01.1" ≡ none)
    × (parse_ipv4 "10.0.0" ≡ none)
    × (parse_ipv4 "10.0.0.1.2" ≡ none)
    × (parse_ipv4 "fd00::1" ≡ none)
unfolding parse_ipv4
addresses = (refl, refl, refl, refl, refl, refl, refl)

names :
    (in_domain default_dns_config "shop.internal" ≡ true)
    × (in_domain default_dns_config "internal" ≡ true)
    × (in_domain default_dns_config "shopinternal" ≡ false)
    × (app_name default_dns_config "shop.internal" ≡ some "shop")
    × (app_name default_dns_config "internal" ≡ none)
unfolding in_domain app_name
names = (refl, refl, refl, refl, refl)

abbrev saopaulo : Backend
saopaulo = record {
  id = "sa-1";
  app = "app";
  region = south_america;
  country = "BR";
  wg_ip = "10.0.0.1";
  port = 8080;
  healthy = true;
  weight = 1;
  soft_limit = 10;
  hard_limit = 100;
}

abbrev loaded : SqliteBackendRepository
loaded = record { backends = saopaulo ∷ []; version = 1 }

abbrev service : ProxyService
service = record {
  backend_repo = repository_of loaded;
  binding_repo = [];
  geo_resolver = none;
  metrics = [];
  local_region = europe;
}

abbrev handler : DnsHandler
handler = record { proxy_service = service; geo_resolver = none; config = default_dns_config }

abbrev client : SocketAddr
client = record { ip = v4 7; port = 5300 }

handle_request-Answered_example :
    let done = handle_request whole 9 "shop.internal." true client handler in
    Answered 9 client.ip done.0.proxy_service done.1
    × LeavesOthers client.ip handler.proxy_service done.0.proxy_service
handle_request-Answered_example =
    handle_request-Answered whole_laws 9 "shop.internal." true client handler
      (repository_of-laws loaded)

-- A packet with a query is not answered.
unanswered :
    handle_packet
      (λ packet. some ("shop.internal" ∷ []))
      (new_dns_server "0.0.0.0:53" service none "internal")
      (1 ∷ 2 ∷ [])
    ≡ (new_dns_server "0.0.0.0:53" service none "internal", [], true)
unfolding handle_packet
unanswered = refl
