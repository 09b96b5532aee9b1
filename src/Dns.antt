-- ===== src/Dns.antt =====
-- src/adapters/inbound/dns_server.rs: the answers to queries for names of the internal domain. The
-- DNS protocol is hickory's; a name is its text.
pub mod Answering
mod Examples
use Prim.Native.String.{◌++◌ as append, len, slice}
use text.Mathlib.Text.{find?}
use edgeproxy.Prelude.{
  ℕ, zero, suc, ◌+◌, ◌-◌, ◌*◌, ◌^◌, Bool, true, false, not, String, List, [], Option, none, some,
  if◌then◌else◌, ltb, leb, nat_beq, ◌&&◌, ◌||◌, string_key, ◌==◌, ◌>>=◌, digit_at,
}
use edgeproxy.Float.{F64}
use edgeproxy.Net.{IpAddr, SocketAddr}
use edgeproxy.Domain.{GeoResolver, Backend, GeoInfo}
use edgeproxy.Proxy.{ProxyService, resolve_backend_with_geo}
use edgeproxy.Server.{is_loopback, resolve_through}

-- `ends_with` and `strip_suffix`.
unfoldable pub ends_with : String → String → Bool
ends_with s t = leb (len t) (len s) && slice s (len s - len t) (len s) == t

unfoldable pub strip_suffix : String → String → Option String
unfolding ends_with
strip_suffix s t = if ends_with s t then some (slice s 0 (len s - len t)) else none

abbrev dot : String
dot = "."

-- `trim_end_matches('.')`; the fuel is the number of bytes, and each round takes one.
trim_dots : ℕ → String → String
unfolding ends_with
trim_dots zero s = s
trim_dots (suc fuel) s =
    let rest = trim_dots fuel (slice s 0 (len s - 1)) in if ends_with s dot then rest else s

unfoldable pub trim_end_dots : String → String
unfolding trim_dots
trim_end_dots s = trim_dots (len s) s

-- `str::parse::<Ipv4Addr>`: four numbers of one to three digits up to 255, with no leading zero.
octet : String → Option ℕ
unfolding digit_at
octet s =
    if nat_beq (len s) 1
    then digit_at s 0
    else if nat_beq (len s) 2
    then (do a ← digit_at s 0; b ← digit_at s 1; if nat_beq a 0 then none else some (a * 10 + b))
    else if nat_beq (len s) 3
    then (do
      a ← digit_at s 0
      b ← digit_at s 1
      c ← digit_at s 2
      if nat_beq a 0
          then none
          else if ltb 255 (a * 100 + b * 10 + c)
          then none
          else some (a * 100 + b * 10 + c))
    else none

-- What stands before the first dot, and what stands after it.
cut : String → Option (String × String)
cut s = elim (find? s ".") [ none ↦ none | some k ↦ some (slice s 0 k, slice s (k + 1) (len s)) ]

unfoldable pub parse_ipv4 : String → Option ℕ
unfolding octet cut
parse_ipv4 s = do
  (first, after_first) ← cut s
  (second, after_second) ← cut after_first
  (third, fourth) ← cut after_second
  a ← octet first
  b ← octet second
  c ← octet third
  d ← octet fourth
  some (a * 2 ^ 24 + b * 2 ^ 16 + c * 2 ^ 8 + d)

pub record DnsConfig : Type 0 where
  pub domain : String
  pub ttl : ℕ

abbrev pub default_dns_config : DnsConfig
default_dns_config = record { domain = "internal"; ttl = 30 }

pub record DnsHandler : Type 0 where
  pub proxy_service : ProxyService
  pub geo_resolver : Option GeoResolver
  pub config : DnsConfig

unfoldable pub in_domain : DnsConfig → String → Bool
unfolding ends_with
in_domain config query = ends_with query (append "." config.domain) || query == config.domain

-- The name of the app in a query; none is a query for the domain itself.
unfoldable pub app_name : DnsConfig → String → Option String
unfolding strip_suffix
app_name config query =
    if query == config.domain then none else elim (strip_suffix query (append "." config.domain)) [
      | none ↦ some query
      | some app ↦ some app
    ]

unfoldable pub dns_geo : DnsHandler → IpAddr → Option GeoInfo
unfolding is_loopback resolve_through
dns_geo h ip = if is_loopback ip then none else resolve_through h.geo_resolver ip

-- The response: its code, and the record of the name with its time to live, if there is one.
pub data Response : Type 0 where
  not_imp nx_domain : Response
  no_error : String → ℕ → ℕ → Response

unfoldable pub respond : String → DnsHandler × Option ℕ → DnsHandler × Response
respond name (h, none) = (h, nx_domain)
respond name (h, some ip) = (h, no_error name h.config.ttl ip)

module _ (f : F64) where
  -- A backend of another app is only logged, so the answer does not read `app_name`.
  unfoldable pub resolve : ℕ → String → IpAddr → DnsHandler → DnsHandler × Option ℕ
  unfolding trim_end_dots in_domain dns_geo
  resolve now name ip h =
      if not (in_domain h.config (trim_end_dots name))
      then (h, none)
      else let (service, found) =
          resolve_backend_with_geo f h.proxy_service now ip (dns_geo h ip) in
        (
          record h { proxy_service = service },
          elim found [ none ↦ none | some b ↦ parse_ipv4 b.wg_ip ],
        )

  -- `is_a` is whether the type of the query is A.
  unfoldable pub handle_request :
      ℕ → String → Bool → SocketAddr → DnsHandler → DnsHandler × Response
  unfolding resolve respond
  handle_request now name is_a src h =
      if not is_a then (h, not_imp) else respond name (resolve now name src.ip h)

pub record DnsServer : Type 0 where
  pub listen_addr : String
  pub handler : DnsHandler

unfoldable pub new_dns_server : String → ProxyService → Option GeoResolver → String → DnsServer
new_dns_server listen_addr service resolver domain = record {
  listen_addr = listen_addr;
  handler = record {
    proxy_service = service;
    geo_resolver = resolver;
    config = record { domain = domain; ttl = 30 };
  };
}

-- A packet that comes to the socket: hickory's `Message::from_bytes` reads its queries, or refuses
-- it. The packets sent in answer, and whether the task ended well.
unfoldable pub handle_packet :
    (List ℕ → Option (List String)) → DnsServer → List ℕ → DnsServer × List (List ℕ) × Bool
handle_packet from_bytes s packet = elim (from_bytes packet) [
  | none ↦ (s, [], false)
  | some queries ↦ (s, [], true)
]
