-- ===== src/Proxy/Affinity.antt =====
-- Session affinity: what a call of `resolve_backend_with_geo` answers and remembers.
use edgeproxy.Prelude.{
  ℕ, ◌≡◌, refl, true, String, List, [], ◌∷◌, Option, none, some, lookup, lookup-remove,
  lookup-insert_self, arith, ==_refl, ◌∙◌, ap, sym,
}
use edgeproxy.Float.{F64, F64Laws}
use edgeproxy.Net.{IpAddr, ip_key}
use edgeproxy.Domain.{Backend, Binding, GeoInfo, new_binding, touch}
use edgeproxy.Repository.{RepositoryLaws}
use edgeproxy.Bindings.{Bindings, get, set, drop, touch_key}
use edgeproxy.Metrics.{get_connection_count}
use edgeproxy.Balancer.{eligible}
use edgeproxy.Proxy.{choose, bind_to, follow}
use edgeproxy.Balancer.Choice.{pick_backend-Picked}
use edgeproxy.Proxy.{
  ProxyService, healthy_backend, resolve_geo, assign, resolve_backend_with_geo, resolve_backend,
}

-- What a call leaves: the answer is a healthy backend, and the client is bound to it with the time
-- of the call; or there is no answer, and no binding of the client.
abbrev pub Remembers : ℕ → IpAddr → ProxyService × Option Backend → Type 0
Remembers now ip (s, none) = lookup ip s.binding_repo ≡ none
Remembers now ip (s, some b) =
    (b.healthy ≡ true)
    × ((bound : Binding) × (lookup ip s.binding_repo ≡ some bound)
        × (bound.backend_id ≡ b.id)
        × (bound.last_seen ≡ now))

module _ {f : F64} (laws : F64Laws f) where
  choose-healthy :
      (s : ProxyService) (geo : Option GeoInfo) (bs : List Backend) {b : Backend}
      → choose f s geo bs ≡ some b
      → b.healthy ≡ true
  unfolding choose eligible
  choose-healthy s geo [] e = cc
  choose-healthy s geo (c ∷ cs) e =
      ground (
        arith,
        pick_backend-Picked laws s.local_region geo (get_connection_count s.metrics) (c ∷ cs),
      )

  bind_to-Remembers :
      (s : ProxyService) (now : ℕ) (ip : IpAddr) (o : Option Backend)
      → ((b : Backend) → o ≡ some b → b.healthy ≡ true)
      → lookup ip s.binding_repo ≡ none
      → Remembers now ip (bind_to s now ip o)
  unfolding bind_to set new_binding
  bind_to-Remembers s now ip none h e = e
  bind_to-Remembers s now ip (some b) h e =
      (h b refl, (new_binding b.id now, lookup-insert_self ip _ s.binding_repo, refl, refl))

  healthy_backend-id :
      (s : ProxyService) (id : String) {b : Backend}
      → RepositoryLaws s.backend_repo
      → healthy_backend s.backend_repo id ≡ some b
      → (b.healthy ≡ true) × (b.id ≡ id)
  unfolding healthy_backend
  healthy_backend-id s id {b} r e = ground (arith, r.by_id id b)

  lookup-touch_key :
      (now : ℕ) (ip : IpAddr) (bs : Bindings) (b : Binding)
      → lookup ip bs ≡ some b
      → lookup ip (touch_key now ip bs) ≡ some (touch now b)
  unfolding touch_key
  lookup-touch_key now ip bs b e = rw (e, touch_key) (lookup-insert_self ip _ bs)

  lookup-drop : (ip : IpAddr) (bs : Bindings) → lookup ip (drop ip bs) ≡ none
  unfolding drop
  lookup-drop ip bs = rw (lookup-remove ip ip bs, ==_refl ip)

  assign-Remembers :
      (s : ProxyService) (now : ℕ) (ip : IpAddr) (geo : Option GeoInfo)
      → lookup ip s.binding_repo ≡ none
      → Remembers now ip (assign f s now ip geo)
  unfolding assign
  assign-Remembers s now ip geo e =
      bind_to-Remembers s now ip _ (λ b h. choose-healthy s geo s.backend_repo.get_healthy h) e

  follow-Remembers :
      (s : ProxyService) (now : ℕ) (ip : IpAddr) (geo : Option GeoInfo) (b : Binding)
      (o : Option Backend)
      → RepositoryLaws s.backend_repo
      → lookup ip s.binding_repo ≡ some b
      → healthy_backend s.backend_repo b.backend_id ≡ o
      → Remembers now ip (follow f s now ip geo o)
  unfolding follow
  follow-Remembers s now ip geo b none r e h = assign-Remembers _ now ip geo (lookup-drop ip _)
  follow-Remembers s now ip geo b (some c) r e h =
      let (well, same) = healthy_backend-id s b.backend_id r h in
      (
        well,
        (
          touch now b,
          lookup-touch_key now ip s.binding_repo b e,
          unfold touch in sym same,
          unfold touch in refl,
        ),
      )

  -- A call answers with a healthy backend and leaves the client bound to it, seen at the time of the
  -- call; or it answers with none and leaves the client with no binding.
  pub resolve-Remembers :
      (s : ProxyService) (now : ℕ) (ip : IpAddr) (geo : Option GeoInfo)
      → RepositoryLaws s.backend_repo
      → Remembers now ip (resolve_backend_with_geo f s now ip geo)
  unfolding resolve_backend_with_geo get
  resolve-Remembers s now ip geo r = go (lookup ip s.binding_repo) refl
    where
      go :
          (o : Option Binding)
          → lookup ip s.binding_repo ≡ o
          → Remembers now ip (elim o [
            | none ↦ assign f s now ip geo
            | some b ↦ follow f s now ip geo (healthy_backend s.backend_repo b.backend_id)
          ])
      go none e = assign-Remembers s now ip geo e
      go (some b) e = follow-Remembers s now ip geo b _ r e refl

  -- Affinity: a bound client is served by the backend that the binding names.
  served :
      (t : ProxyService) (later : ℕ) (ip : IpAddr) (geo : Option GeoInfo) (bound : Binding)
      (b : Backend)
      → lookup ip t.binding_repo ≡ some bound
      → t.backend_repo.get_by_id bound.backend_id ≡ some b
      → b.healthy ≡ true
      → (resolve_backend_with_geo f t later ip geo).1 ≡ some b
  unfolding resolve_backend_with_geo get follow healthy_backend
  served t later ip geo bound b e known well = ground arith

  bound_of :
      (now : ℕ) (ip : IpAddr) (r : ProxyService × Option Backend) (b : Backend)
      → Remembers now ip r
      → r.1 ≡ some b
      → (b.healthy ≡ true)
        × ((bound : Binding) × (lookup ip r.0.binding_repo ≡ some bound)
            × (bound.backend_id ≡ b.id))
  bound_of now ip (s, none) b h e = cc
  bound_of now ip (s, some c) b (well, (bound, found, same, seen)) e =
      let is_b : c ≡ b = cc in
      (rw (← is_b) well, (bound, found, same ∙ ap (λ (d : Backend). d.id) is_b))

  -- While the repository knows the backend that a client got as healthy, the client gets it again,
  -- whatever the loads, the places and the times of the calls are.
  pub resolve_twice :
      (s t : ProxyService) (now later : ℕ) (ip : IpAddr) (geo geo' : Option GeoInfo) {b : Backend}
      → RepositoryLaws s.backend_repo
      → (resolve_backend_with_geo f s now ip geo).1 ≡ some b
      → t.binding_repo ≡ (resolve_backend_with_geo f s now ip geo).0.binding_repo
      → t.backend_repo.get_by_id b.id ≡ some b
      → (resolve_backend_with_geo f t later ip geo').1 ≡ some b
  resolve_twice s t now later ip geo geo' {b} r e same known =
      let (well, (bound, found, names)) =
        bound_of now ip (resolve_backend_with_geo f s now ip geo) b
          (resolve-Remembers s now ip geo r) e in
      served t later ip geo' bound b (ap (lookup ip) same ∙ found)
        (ap t.backend_repo.get_by_id names ∙ known) well

-- `resolve_backend` is `resolve_backend_with_geo` at the place that the resolver gives for the client.
pub resolve_backend-with_geo :
    (f : F64) (s : ProxyService) (now : ℕ) (ip : IpAddr)
    → resolve_backend f s now ip ≡ resolve_backend_with_geo f s now ip (resolve_geo s ip)
unfolding resolve_backend resolve_backend_with_geo
resolve_backend-with_geo f s now ip = refl
