-- ===== src/Server/Examples.antt =====
-- Runs of the TCP and the TLS server, and their theorems at concrete connections.
use edgeproxy.Prelude.{
  ◌≡◌, refl, true, false, String, List, [], ◌∷◌, none, some, if◌then◌else◌, arith, display,
  string_key,
}
use edgeproxy.Float.{whole, whole_laws}
use edgeproxy.Net.{v4, v6, SocketAddr, localhost}
use edgeproxy.Domain.{Backend, GeoInfo}
use edgeproxy.Domain.Region.{south_america, europe}
use edgeproxy.Repository.{SqliteBackendRepository, repository_of, repository_of-laws}
use edgeproxy.Metrics.{get_connection_count}
use edgeproxy.Proxy.{ProxyService}
use edgeproxy.Server.{
  TcpServer, Answers, is_loopback, backend_addr, resolve_localhost_geo, open_connection,
  handle_connection,
}
use edgeproxy.Server.Tls.{
  TlsServer, handle_tls, as_tcp, handle_tls-connection, Rustls, from_pem_files, self_signed,
}
use edgeproxy.Server.Refused.{Opened, open_connection-Opened}
use edgeproxy.Server.Counting.{Event, opens, closes, events, occurrences, events-Counted}

abbrev saopaulo : Backend
saopaulo = record {
  id = "sa-1";
  app = "app";
  region = south_america;
  country = "BR";
  wg_ip = "10.0.0.1";
  port = 8080;
  healthy = true;
  weight = 1;
  soft_limit = 10;
  hard_limit = 100;
}

ports : (display 8080 ≡ "8080") × (display 7 ≡ "7") × (display 65535 ≡ "65535")
unfolding display
ports = (refl, refl, refl)

addresses :
    (backend_addr saopaulo ≡ "10.0.0.1:8080")
    × (backend_addr (record saopaulo { wg_ip = "fd00::1" }) ≡ "[fd00::1]:8080")
unfolding backend_addr
addresses = (refl, refl)

loopbacks :
    (is_loopback localhost ≡ true) × (is_loopback (v6 1) ≡ true) × (is_loopback (v4 7) ≡ false)
unfolding is_loopback
loopbacks = (refl, refl, refl)

abbrev lisbon : GeoInfo
lisbon = record { country = "PT"; region = europe }

-- The public address is looked up once.
cached :
    (resolve_localhost_geo (some (λ ip. some lisbon)) (some (v4 7)) none
      ≡ (some lisbon, some lisbon))
    × (resolve_localhost_geo none none (some lisbon) ≡ (some lisbon, some lisbon))
unfolding resolve_localhost_geo
cached = (refl, refl)

abbrev loaded : SqliteBackendRepository
loaded = record { backends = saopaulo ∷ []; version = 1 }

abbrev service : ProxyService
service = record {
  backend_repo = repository_of loaded;
  binding_repo = [];
  geo_resolver = none;
  metrics = [];
  local_region = europe;
}

abbrev server : TcpServer
server = record {
  proxy_service = service;
  listen_addr = "0.0.0.0:8080";
  geo_resolver = none;
  public_ip_geo = none;
}

abbrev all_connect : Answers
all_connect = record { public_ip = none; connects = λ a. true; elapsed = 3_000_000 }

abbrev none_connects : Answers
none_connects = record { public_ip = none; connects = λ a. false; elapsed = 0 }

abbrev client : SocketAddr
client = record { ip = v4 7; port = 5000 }

open_connection-Opened_example :
    let done = open_connection whole none_connects 9 client server in
    Opened none_connects 9 client.ip server.proxy_service (done.0.proxy_service, done.1)
open_connection-Opened_example =
    open_connection-Opened whole_laws none_connects 9 client server (repository_of-laws loaded)

abbrev two_clients : List Event
two_clients =
    opens all_connect 9 client
    ∷ opens all_connect 10 (record { ip = v4 8; port = 5000 })
    ∷ closes 0 1
    ∷ opens none_connects 11 client
    ∷ []

events-Counted_example :
    get_connection_count (events whole two_clients (server, [])).0.proxy_service.metrics "sa-1"
    ≡ occurrences "sa-1" (events whole two_clients (server, [])).1
events-Counted_example = events-Counted whole two_clients server "sa-1" (omega arith) refl

abbrev tls_server : TlsServer
tls_server = record {
  proxy_service = service;
  listen_addr = "0.0.0.0:8443";
  geo_resolver = none;
  public_ip_geo = none;
}

handle_tls-connection_example :
    let done = handle_connection whole all_connect 0 9 client (as_tcp tls_server) in
    let tls = handle_tls whole true all_connect 0 9 client tls_server in
    (as_tcp tls.0 ≡ done.0) × (tls.1 ≡ some done.1)
handle_tls-connection_example = handle_tls-connection whole true all_connect 0 9 client tls_server

-- Files are their names, and a certificate or key is what stands in a file.
abbrev files : Rustls
files = record {
  File = String;
  Cert = String;
  Key = String;
  Acceptor = String;
  open_file = λ name. if string_key.same name "gone" then none else some name;
  certs = λ file. some (file ∷ []);
  private_key = λ file. if string_key.same file "no key" then some none else some (some file);
  single_cert = λ certs key. some key;
  generate_self_signed = λ names. some ("cert", some "made");
}

loading :
    (from_pem_files files "cert" "key" ≡ some "key")
    × (from_pem_files files "cert" "gone" ≡ none)
    × (from_pem_files files "cert" "no key" ≡ none)
    × (self_signed files "edge" ≡ some "made")
unfolding from_pem_files self_signed
loading = (refl, refl, refl, refl)
