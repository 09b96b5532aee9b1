-- ===== src/Server.antt =====
-- src/adapters/inbound/tcp_server.rs: how a connection of a client is served. What sockets and the
-- address service answer is the record Answers; the bytes that are copied are not modelled.
pub mod Tls
pub mod Refused
pub mod Counting
mod Examples
use Prim.Native.String.{◌++◌ as append}
use text.Mathlib.Text.{find?}
use edgeproxy.Prelude.{
  ℕ, zero, suc, ◌+◌, ◌/◌, ◌%◌, ◌^◌, Bool, true, false, String, Option, none, some, if◌then◌else◌,
  ltb, nat_beq, Duration, as_millis, display,
}
use edgeproxy.Float.{F64}
use edgeproxy.Net.{IpAddr, v4, v6, SocketAddr}
use edgeproxy.Domain.{GeoResolver, Backend, GeoInfo}
use edgeproxy.Proxy.{
  ProxyService, resolve_geo, resolve_backend_with_geo, clear_binding, record_connection_start,
  record_connection_end, record_rtt,
}

-- `IpAddr::is_loopback`: 127.0.0.0/8 and ::1.
unfoldable pub is_loopback : IpAddr → Bool
is_loopback (v4 a) = nat_beq (a / 2 ^ 24) 127
is_loopback (v6 a) = nat_beq a 1

-- An IPv6 address stands in brackets.
unfoldable pub backend_addr : Backend → String
unfolding display
backend_addr b = elim (find? b.wg_ip ":") [
  | some _ ↦ append (append (append "[" b.wg_ip) "]:") (display b.port)
  | none ↦ append (append b.wg_ip ":") (display b.port)
]

pub record TcpServer : Type 0 where
  pub proxy_service : ProxyService
  pub listen_addr : String
  pub geo_resolver : Option GeoResolver
  pub public_ip_geo : Option GeoInfo

unfoldable pub new_tcp_server : ProxyService → String → Option GeoResolver → TcpServer
new_tcp_server service listen_addr resolver = record {
  proxy_service = service;
  listen_addr = listen_addr;
  geo_resolver = resolver;
  public_ip_geo = none;
}

-- What is answered during a call: the address that `fetch_public_ip` finds, whether a connection to
-- an address can be made, and the time that it took.
pub record Answers : Type 0 where
  pub public_ip : Option IpAddr
  pub connects : String → Bool
  pub elapsed : Duration

unfoldable pub resolve_through : Option GeoResolver → IpAddr → Option GeoInfo
resolve_through none ip = none
resolve_through (some resolve) ip = resolve ip

-- The cache afterwards, and the place.
unfoldable pub resolve_localhost_geo :
    Option GeoResolver → Option IpAddr → Option GeoInfo → Option GeoInfo × Option GeoInfo
unfolding resolve_through
resolve_localhost_geo resolver public_ip (some geo) = (some geo, some geo)
resolve_localhost_geo resolver none none = (none, none)
resolve_localhost_geo resolver (some ip) none = let geo = resolve_through resolver ip in (geo, geo)

-- How far a connection comes: no backend, a backend that cannot be reached, or bytes that are copied
-- between the client and a backend.
pub data Stage : Type 0 where
  no_backend : Stage
  unreachable copying : String → Stage

-- The part of a call that has the backend.
unfoldable pub reach : Answers → IpAddr → ProxyService × Option Backend → ProxyService × Stage
unfolding backend_addr
reach answers ip (s, none) = (s, no_backend)
reach answers ip (s, some b) =
    if answers.connects (backend_addr b)
    then (
      record_rtt (record_connection_start s b.id) b.id (as_millis answers.elapsed),
      copying b.id,
    )
    else (clear_binding s ip, unreachable b.id)

module _ (f : F64) where
  -- A call up to the copying; `now` is the time of the binding.
  unfoldable pub open_connection : Answers → ℕ → SocketAddr → TcpServer → TcpServer × Stage
  unfolding is_loopback reach resolve_localhost_geo
  open_connection answers now addr s =
      let (cache, geo) =
        if is_loopback addr.ip
        then resolve_localhost_geo s.geo_resolver answers.public_ip s.public_ip_geo
        else (s.public_ip_geo, resolve_geo s.proxy_service addr.ip) in
      let (service, stage) =
        reach answers addr.ip (resolve_backend_with_geo f s.proxy_service now addr.ip geo) in
      (record s { proxy_service = service; public_ip_geo = cache }, stage)

-- The end of the copying, which is never an error.
unfoldable pub close_connection : ℕ → Stage → TcpServer → TcpServer
close_connection failures (copying id) s = record s {
  proxy_service = record_connection_end failures s.proxy_service id;
}
close_connection failures (unreachable id) s = s
close_connection failures no_backend s = s

-- A whole call that no other interrupts.
unfoldable pub handle_connection :
    F64 → Answers → ℕ → ℕ → SocketAddr → TcpServer → TcpServer × Stage
unfolding open_connection close_connection
handle_connection f answers failures now addr s =
    let (t, stage) = open_connection f answers now addr s in
    (close_connection failures stage t, stage)
