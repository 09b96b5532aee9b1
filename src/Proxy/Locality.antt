-- ===== src/Proxy/Locality.antt =====
-- What a call of `resolve_backend_with_geo` leaves alone.
use edgeproxy.Prelude.{
  ℕ, ◌≡◌, refl, false, Option, none, some, lookup, insert, remove, lookup-insert, lookup-remove,
  ◌==◌, Option-cases, inl, inr, ◌∙◌,
}
use edgeproxy.Float.{F64}
use edgeproxy.Net.{IpAddr, ip_key}
use edgeproxy.Domain.{Backend, Binding, GeoInfo}
use edgeproxy.Bindings.{Bindings, get, set, drop, touch_key}
use edgeproxy.Proxy.{choose, bind_to, follow}
use edgeproxy.Proxy.{ProxyService, healthy_backend, assign, resolve_backend_with_geo}

-- What a call may not touch: other clients' bindings, the counts, the repository.
abbrev pub LeavesOthers : IpAddr → ProxyService → ProxyService → Type 0
LeavesOthers ip s t =
    ((j : IpAddr) → (ip == j) ≡ false → lookup j t.binding_repo ≡ lookup j s.binding_repo)
    × (t.metrics ≡ s.metrics)
    × (t.backend_repo ≡ s.backend_repo)

lookup-insert_ne :
    (ip j : IpAddr) (b : Binding) (bs : Bindings)
    → (ip == j) ≡ false
    → lookup j (insert ip b bs) ≡ lookup j bs
lookup-insert_ne ip j b bs h = rw (lookup-insert ip j b bs, h)

lookup-touch_ne :
    (now : ℕ) (ip j : IpAddr) (bs : Bindings)
    → (ip == j) ≡ false
    → lookup j (touch_key now ip bs) ≡ lookup j bs
unfolding touch_key
lookup-touch_ne now ip j bs h = elim (Option-cases (lookup ip bs)) [
  | inl e ↦ rw (e, touch_key)
  | inr (b, e) ↦ rw (e, touch_key) (lookup-insert_ne ip j _ bs h)
]

bind_to-others :
    (s : ProxyService) (now : ℕ) (ip : IpAddr) (o : Option Backend)
    → LeavesOthers ip s (bind_to s now ip o).0
unfolding bind_to set
bind_to-others s now ip none = ((λ j h. refl), refl, refl)
bind_to-others s now ip (some b) = ((λ j h. lookup-insert_ne ip j _ s.binding_repo h), refl, refl)

module _ (f : F64) where
  follow-others :
      (s : ProxyService) (now : ℕ) (ip : IpAddr) (geo : Option GeoInfo) (o : Option Backend)
      → LeavesOthers ip s (follow f s now ip geo o).0
  unfolding follow assign drop
  follow-others s now ip geo (some b) =
      ((λ j h. lookup-touch_ne now ip j s.binding_repo h), refl, refl)
  follow-others s now ip geo none =
      let left = record s { binding_repo = remove ip (touch_key now ip s.binding_repo) } in
      let (others, counts, repo) =
        bind_to-others left now ip (choose f left geo s.backend_repo.get_healthy) in
      (
        (λ j h.
            others j h
            ∙ rw (lookup-remove ip j (touch_key now ip s.binding_repo), h)
                (lookup-touch_ne now ip j s.binding_repo h)),
        counts,
        repo,
      )

  -- A call changes nothing but its client's binding: the bindings of the other clients, the
  -- connection counts and the repository stay as they were.
  pub resolve-others :
      (s : ProxyService) (now : ℕ) (ip : IpAddr) (geo : Option GeoInfo)
      → LeavesOthers ip s (resolve_backend_with_geo f s now ip geo).0
  unfolding resolve_backend_with_geo assign
  resolve-others s now ip geo = go (get ip s.binding_repo)
    where
      go :
          (o : Option Binding)
          → LeavesOthers ip s
              (elim o as (λ _. ProxyService × Option Backend) [
                | none ↦ assign f s now ip geo
                | some b ↦ follow f s now ip geo (healthy_backend s.backend_repo b.backend_id)
              ]).0
      go none = bind_to-others s now ip _
      go (some b) = follow-others s now ip geo _
