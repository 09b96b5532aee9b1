-- ===== src/Server/Tls.antt =====
-- src/adapters/inbound/tls_server.rs: the server that takes connections through TLS. `rustls`,
-- `rustls_pemfile` and `rcgen` are the interface Rustls.
use edgeproxy.Prelude.{
  ℕ, ◌≡◌, refl, Bool, true, false, String, List, [], ◌∷◌, Option, none, some, if◌then◌else◌, ◌>>=◌,
  ap, ◌∙◌, as_millis,
}
use edgeproxy.Float.{F64}
use edgeproxy.Net.{IpAddr, SocketAddr}
use edgeproxy.Domain.{GeoResolver, Backend, GeoInfo}
use edgeproxy.Proxy.{
  ProxyService, resolve_geo, resolve_backend_with_geo, clear_binding, record_connection_start,
  record_connection_end, record_rtt,
}
use edgeproxy.Server.{
  is_loopback, backend_addr, Answers, resolve_through, Stage, no_backend, unreachable, copying,
  reach, TcpServer, open_connection, close_connection, handle_connection, resolve_localhost_geo,
}

-- none is an error; `private_key` may also find no key in a file.
pub record Rustls : Type 1 where
  pub File : Type 0
  pub Cert : Type 0
  pub Key : Type 0
  pub Acceptor : Type 0
  pub open_file : String → Option File
  pub certs : File → Option (List Cert)
  pub private_key : File → Option (Option Key)
  pub single_cert : List Cert → Key → Option Acceptor
  pub generate_self_signed : List String → Option (Cert × Option Key)

module _ (r : Rustls) where
  unfoldable pub from_certs_and_key : List r.Cert → r.Key → Option r.Acceptor
  from_certs_and_key certs key = r.single_cert certs key

  unfoldable pub load_key : List r.Cert → r.File → Option r.Acceptor
  unfolding from_certs_and_key
  load_key certs key_file = elim (r.private_key key_file) [
    | none ↦ none
    | some none ↦ none
    | some (some key) ↦ from_certs_and_key certs key
  ]

  unfoldable pub from_pem_files : String → String → Option r.Acceptor
  unfolding load_key
  from_pem_files cert_path key_path = do
    cert_file ← r.open_file cert_path
    key_file ← r.open_file key_path
    certs ← r.certs cert_file
    load_key certs key_file

  unfoldable pub self_signed : String → Option r.Acceptor
  unfolding from_certs_and_key
  self_signed domain = elim (r.generate_self_signed (domain ∷ "localhost" ∷ "127.0.0.1" ∷ [])) [
    | none ↦ none
    | some (cert, none) ↦ none
    | some (cert, some key) ↦ from_certs_and_key (cert ∷ []) key
  ]

pub record TlsServer : Type 0 where
  pub proxy_service : ProxyService
  pub listen_addr : String
  pub geo_resolver : Option GeoResolver
  pub public_ip_geo : Option GeoInfo

unfoldable pub new_tls_server : ProxyService → String → Option GeoResolver → TlsServer
new_tls_server service listen_addr resolver = record {
  proxy_service = service;
  listen_addr = listen_addr;
  geo_resolver = resolver;
  public_ip_geo = none;
}

unfoldable pub resolve_localhost :
    Option GeoResolver → Option IpAddr → Option GeoInfo → Option GeoInfo × Option GeoInfo
unfolding resolve_through
resolve_localhost resolver public_ip (some geo) = (some geo, some geo)
resolve_localhost resolver none none = (none, none)
resolve_localhost resolver (some ip) none = let geo = resolve_through resolver ip in (geo, geo)

unfoldable pub connect_tls : Answers → IpAddr → ProxyService × Option Backend → ProxyService × Stage
connect_tls answers ip (s, none) = (s, no_backend)
connect_tls answers ip (s, some b) =
    if answers.connects (backend_addr b)
    then (
      record_rtt (record_connection_start s b.id) b.id (as_millis answers.elapsed),
      copying b.id,
    )
    else (clear_binding s ip, unreachable b.id)

module _ (f : F64) where
  unfoldable pub open_tls : Answers → ℕ → SocketAddr → TlsServer → TlsServer × Stage
  unfolding connect_tls resolve_localhost
  open_tls answers now addr s =
      let (cache, geo) =
        if is_loopback addr.ip
        then resolve_localhost s.geo_resolver answers.public_ip s.public_ip_geo
        else (s.public_ip_geo, resolve_geo s.proxy_service addr.ip) in
      let (service, stage) =
        connect_tls answers addr.ip (resolve_backend_with_geo f s.proxy_service now addr.ip geo) in
      (record s { proxy_service = service; public_ip_geo = cache }, stage)

unfoldable pub close_tls : ℕ → Stage → TlsServer → TlsServer
close_tls failures (copying id) s = record s {
  proxy_service = record_connection_end failures s.proxy_service id;
}
close_tls failures (unreachable id) s = s
close_tls failures no_backend s = s

-- The task of a connection; `handshake` is whether TLS accepts it, and none is that it does not.
unfoldable pub handle_tls :
    F64 → Bool → Answers → ℕ → ℕ → SocketAddr → TlsServer → TlsServer × Option Stage
unfolding open_tls close_tls
handle_tls f handshake answers failures now addr s =
    let (t, stage) = open_tls f answers now addr s in
    if handshake then (close_tls failures stage t, some stage) else (s, none)

abbrev pub as_tcp : TlsServer → TcpServer
as_tcp s = record {
  proxy_service = s.proxy_service;
  listen_addr = s.listen_addr;
  geo_resolver = s.geo_resolver;
  public_ip_geo = s.public_ip_geo;
}

resolve_localhost-geo :
    (resolver : Option GeoResolver) (ip : Option IpAddr) (cache : Option GeoInfo)
    → resolve_localhost resolver ip cache ≡ resolve_localhost_geo resolver ip cache
unfolding resolve_localhost resolve_localhost_geo
resolve_localhost-geo resolver ip (some geo) = refl
resolve_localhost-geo resolver none none = refl
resolve_localhost-geo resolver (some ip) none = refl

connect_tls-reach :
    (answers : Answers) (ip : IpAddr) (found : ProxyService × Option Backend)
    → connect_tls answers ip found ≡ reach answers ip found
unfolding connect_tls reach
connect_tls-reach answers ip (s, none) = refl
connect_tls-reach answers ip (s, some b) = refl

close_tls-connection :
    (failures : ℕ) (stage : Stage) (s : TlsServer)
    → as_tcp (close_tls failures stage s) ≡ close_connection failures stage (as_tcp s)
unfolding close_tls close_connection
close_tls-connection failures (copying id) s = refl
close_tls-connection failures (unreachable id) s = refl
close_tls-connection failures no_backend s = refl

open_tls-connection :
    (f : F64) (answers : Answers) (now : ℕ) (addr : SocketAddr) (s : TlsServer)
    → (as_tcp (open_tls f answers now addr s).0 ≡ (open_connection f answers now addr (as_tcp s)).0)
      × ((open_tls f answers now addr s).1 ≡ (open_connection f answers now addr (as_tcp s)).1)
unfolding open_tls open_connection
open_tls-connection f answers now addr s =
    rw (resolve_localhost-geo s.geo_resolver answers.public_ip s.public_ip_geo)
      (rw (connect_tls-reach answers addr.ip _) (refl, refl))

-- A connection that passes the handshake is served by the TLS server as the TCP server serves it,
-- with the same end, bindings, counts and cache; one that does not pass changes nothing.
pub handle_tls-connection :
    (f : F64) (handshake : Bool) (answers : Answers) (failures now : ℕ) (addr : SocketAddr)
    (s : TlsServer)
    → let done = handle_connection f answers failures now addr (as_tcp s) in
      let tls = handle_tls f handshake answers failures now addr s in
      (as_tcp tls.0 ≡ (if handshake then done.0 else as_tcp s))
      × (tls.1 ≡ (if handshake then some done.1 else none))
unfolding handle_tls handle_connection
handle_tls-connection f true answers failures now addr s =
    let (server, stage) = open_tls-connection f answers now addr s in
    (
      close_tls-connection failures (open_tls f answers now addr s).1
            (open_tls f answers now addr s).0
          ∙ rw (server, stage),
      ap some stage,
    )
handle_tls-connection f false answers failures now addr s = (refl, refl)
