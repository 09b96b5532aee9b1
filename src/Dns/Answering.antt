-- ===== src/Dns/Answering.antt =====
-- src/adapters/inbound/dns_server.rs: what an answer rests on, and what a query changes.
use edgeproxy.Prelude.{
  ℕ, ◌≡◌, refl, Bool, true, false, not, String, Option, none, some, lookup, if◌then◌else◌,
}
use edgeproxy.Float.{F64, F64Laws}
use edgeproxy.Net.{IpAddr, SocketAddr, ip_key}
use edgeproxy.Domain.{Backend, Binding}
use edgeproxy.Repository.{RepositoryLaws}
use edgeproxy.Proxy.{ProxyService, resolve_backend_with_geo}
use edgeproxy.Proxy.Affinity.{Remembers, resolve-Remembers}
use edgeproxy.Proxy.Locality.{LeavesOthers, resolve-others}
use edgeproxy.Dns.{
  DnsHandler, trim_end_dots, in_domain, dns_geo, parse_ipv4, resolve, Response, not_imp, nx_domain,
  no_error, respond, handle_request,
}

-- An address is that of a healthy backend to which the client is now bound.
abbrev pub Answered : ℕ → IpAddr → ProxyService → Response → Type 0
Answered now ip t not_imp = Unit {0}
Answered now ip t nx_domain = Unit {0}
Answered now ip t (no_error name ttl address) =
    (b : Backend) × (parse_ipv4 b.wg_ip ≡ some address)
    × (b.healthy ≡ true)
    × ((bound : Binding) × (lookup ip t.binding_repo ≡ some bound)
        × (bound.backend_id ≡ b.id)
        × (bound.last_seen ≡ now))

-- What a query comes to, in terms of the service before it.
abbrev Fine : ℕ → IpAddr → ProxyService → DnsHandler × Response → Type 0
Fine now ip s (h, response) =
    Answered now ip h.proxy_service response × LeavesOthers ip s h.proxy_service

respond-Fine :
    (name : String) (now : ℕ) (ip : IpAddr) (s : ProxyService) (h : DnsHandler)
    (found : ProxyService × Option Backend)
    → Remembers now ip found
    → LeavesOthers ip s found.0
    → Fine now ip s (
        respond name (
          record h { proxy_service = found.0 },
          elim found.1 [ none ↦ none | some b ↦ parse_ipv4 b.wg_ip ],
        ))
unfolding respond
respond-Fine name now ip s h (t, none) r others = (tt, others)
respond-Fine name now ip s h (t, some b) r others = go (parse_ipv4 b.wg_ip) refl
  where
    go :
        (o : Option ℕ)
        → parse_ipv4 b.wg_ip ≡ o
        → Fine now ip s (respond name (record h { proxy_service = t }, o))
    go none e = unfold respond in (tt, others)
    go (some address) e = unfold respond in ((b, e, r.0, r.1), others)

module _ {f : F64} (laws : F64Laws f) where
  -- A query that is answered with an address is answered with that of a healthy backend, to which the
  -- client is now bound as a connection would bind it. Whatever the answer is, the query changes
  -- nothing but the client's binding; the repository answers by its laws.
  pub handle_request-Answered :
      (now : ℕ) (name : String) (is_a : Bool) (src : SocketAddr) (h : DnsHandler)
      → RepositoryLaws h.proxy_service.backend_repo
      → let done = handle_request f now name is_a src h in
        Answered now src.ip done.0.proxy_service done.1
        × LeavesOthers src.ip h.proxy_service done.0.proxy_service
  unfolding handle_request resolve
  handle_request-Answered now name false src h r = (tt, ((λ j e. refl), refl, refl))
  handle_request-Answered now name true src h r = go (in_domain h.config (trim_end_dots name))
    where
      found : ProxyService × Option Backend
      found = resolve_backend_with_geo f h.proxy_service now src.ip (dns_geo h src.ip)

      go :
          (inside : Bool)
          → Fine now src.ip h.proxy_service (
              respond name (
                if not inside then (h, none) else (
                  record h { proxy_service = found.0 },
                  elim found.1 [ none ↦ none | some b ↦ parse_ipv4 b.wg_ip ],
                )))
      go true =
          respond-Fine name now src.ip h.proxy_service h found
            (resolve-Remembers laws h.proxy_service now src.ip _ r)
            (resolve-others f h.proxy_service now src.ip _)
      go false = unfold respond in (tt, ((λ j e. refl), refl, refl))

-- Two names of the domain are answered with the same address, or both with none, and leave the same
-- binding, whichever apps they name.
pub resolve-any_name :
    (f : F64) (now : ℕ) (name other : String) (ip : IpAddr) (h : DnsHandler)
    → in_domain h.config (trim_end_dots name) ≡ true
    → in_domain h.config (trim_end_dots other) ≡ true
    → resolve f now name ip h ≡ resolve f now other ip h
unfolding resolve
resolve-any_name f now name other ip h one two = rw (one, two)
