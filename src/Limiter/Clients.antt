-- ===== src/Limiter/Clients.antt =====
-- The limiter as a map of clients.
use edgeproxy.Prelude.{
  ℕ, ◌+◌, ◌-◌, ◌≤◌, ◌<◌, ◌≡◌, refl, Bool, false, List, [], ◌∷◌, none, some, if◌then◌else◌, ltb, min,
  arith, length, Option-cases, inl, inr, All, retain, lookup, insert, remove, lookup-insert_self,
  Duration, ◌∙◌, ap,
}
use edgeproxy.Net.{IpAddr, ip_key}
use edgeproxy.Float.{F64, F64Laws}
use edgeproxy.Limiter.{
  ClientState, RateLimiter, RateLimitConfig, consume, tokens_to_add, refill, check_client,
  client_of, check_with_cost, check, clear, clear_all, cleanup, remaining, new_limiter, new_client,
}
use edgeproxy.Limiter.Bucket.{consume_lem, refill-capped, check_client_balance}

-- A call on the limiter: a request with the spurious failures met, its time, its client and its
-- cost, or one of the ways of forgetting clients.
pub data Call : Type 0 where
  checks : ℕ → ℕ → IpAddr → ℕ → Call
  clears : IpAddr → Call
  clears_all : Call
  cleans : ℕ → Duration → Call

abbrev pub Capped : ℕ → List (IpAddr × ClientState) → Type 0
Capped n = All (λ e. e.1.tokens ≤ n)

insert-Capped :
    (n : ℕ) (ip : IpAddr) (s : ClientState) (es : List (IpAddr × ClientState))
    → s.tokens ≤ n
    → Capped n es
    → Capped n (insert ip s es)
unfolding insert
insert-Capped n ip s [] h c = (h, tt)
insert-Capped n ip s (e ∷ es) h c = ground (arith, insert-Capped n ip s es h c.1)

remove-Capped :
    (n : ℕ) (ip : IpAddr) (es : List (IpAddr × ClientState)) → Capped n es → Capped n (remove ip es)
unfolding remove
remove-Capped n ip [] c = tt
remove-Capped n ip (e ∷ es) c = ground (arith, remove-Capped n ip es c.1)

retain-Capped :
    (n : ℕ) (keep : IpAddr × ClientState → Bool) (es : List (IpAddr × ClientState))
    → Capped n es
    → Capped n (retain keep es)
retain-Capped n keep [] c = tt
retain-Capped n keep (e ∷ es) c = ground (arith, retain-Capped n keep es c.1)

lookup-Capped :
    (n : ℕ) (ip : IpAddr) (es : List (IpAddr × ClientState)) {s : ClientState}
    → Capped n es
    → lookup ip es ≡ some s
    → s.tokens ≤ n
unfolding lookup
lookup-Capped n ip [] c h = cc
lookup-Capped n ip (e ∷ es) {s} c h = ground (arith, lookup-Capped n ip es {s = s} c.1)

module _ {f : F64} where
  unfoldable pub apply : RateLimiter f → Call → RateLimiter f
  apply l (checks failures now ip cost) = (check_with_cost l failures now ip cost).0
  apply l (clears ip) = clear l ip
  apply l clears_all = clear_all l
  apply l (cleans now max_age) = cleanup l now max_age

  unfoldable pub apply_all : RateLimiter f → List Call → RateLimiter f
  apply_all l [] = l
  apply_all l (c ∷ cs) = apply_all (apply l c) cs

  abbrev pub Valid : RateLimiter f → Type 0
  Valid l = Capped l.config.burst_size l.clients

  client_of-le :
      (l : RateLimiter f) (ip : IpAddr) (now : ℕ)
      → Valid l
      → (client_of l ip now).tokens ≤ l.config.burst_size
  unfolding client_of
  client_of-le l ip now v = elim (Option-cases (lookup ip l.clients)) [
    | inl e ↦ ground arith
    | inr (s, e) ↦ ground (arith, lookup-Capped l.config.burst_size ip l.clients v e)
  ]

  checked-le :
      (l : RateLimiter f) (failures now : ℕ) (ip : IpAddr) (cost : ℕ)
      → Valid l
      → (check_client l failures now cost (client_of l ip now)).0.tokens ≤ l.config.burst_size
  checked-le l failures now ip cost v = omega (
    arith,
    check_client_balance l failures now cost (client_of l ip now),
    refill-capped l now (client_of l ip now) (client_of-le l ip now v),
  )

  apply-Valid : (l : RateLimiter f) (c : Call) → Valid l → Valid (apply l c)
  unfolding apply check_with_cost clear clear_all cleanup
  apply-Valid l (checks failures now ip cost) v =
      insert-Capped _ ip _ l.clients (checked-le l failures now ip cost v) v
  apply-Valid l (clears ip) v = remove-Capped _ ip l.clients v
  apply-Valid l clears_all v = tt
  apply-Valid l (cleans now max_age) v = retain-Capped _ _ l.clients v

  apply-config : (l : RateLimiter f) (c : Call) → (apply l c).config ≡ l.config
  unfolding apply check_with_cost clear clear_all cleanup
  apply-config l (checks failures now ip cost) = refl
  apply-config l (clears ip) = refl
  apply-config l clears_all = refl
  apply-config l (cleans now max_age) = refl

  apply_all-Valid :
      (cs : List Call) (l : RateLimiter f)
      → Valid l
      → Valid (apply_all l cs) × ((apply_all l cs).config ≡ l.config)
  unfolding apply_all
  apply_all-Valid [] l v = (v, refl)
  apply_all-Valid (c ∷ cs) l v =
      let (v', e) = apply_all-Valid cs (apply l c) (apply-Valid l c v) in (v', e ∙ apply-config l c)

  remaining-le : (l : RateLimiter f) (ip : IpAddr) → Valid l → remaining l ip ≤ l.config.burst_size
  unfolding remaining
  remaining-le l ip v = elim (Option-cases (lookup ip l.clients)) [
    | inl e ↦ ground arith
    | inr (s, e) ↦ ground (arith, lookup-Capped l.config.burst_size ip l.clients v e)
  ]

  over_burst :
      (l : RateLimiter f) (failures now : ℕ) (ip : IpAddr) (cost : ℕ)
      → Valid l
      → l.config.burst_size < cost
      → (check_with_cost l failures now ip cost).1 ≡ false
  unfolding check_with_cost
  over_burst l failures now ip cost v h = ground (
    arith,
    check_client_balance l failures now cost (client_of l ip now),
    refill-capped l now (client_of l ip now) (client_of-le l ip now v),
  )

-- Whatever the rate and the `f64` arithmetic are, in every limiter that a history of calls makes
-- from a new one no client has more than `burst_size` tokens left, and a request that costs more
-- than `burst_size` is refused at every time.
pub burst_bound :
    (f : F64) (cfg : RateLimitConfig) (cs : List Call) (ip : IpAddr)
    → (remaining (apply_all (new_limiter {f = f} cfg) cs) ip ≤ cfg.burst_size)
      × ((failures now cost : ℕ)
          → cfg.burst_size < cost
          → (check_with_cost (apply_all (new_limiter {f = f} cfg) cs) failures now ip cost).1
            ≡ false)
unfolding new_limiter
burst_bound f cfg cs ip =
    let l = apply_all (new_limiter {f = f} cfg) cs in
    let (v, e) = apply_all-Valid cs (new_limiter {f = f} cfg) tt in
    let size : l.config.burst_size ≡ cfg.burst_size =
      ap (λ (c : RateLimitConfig). c.burst_size) e in
    (
      omega (arith, remaining-le l ip v, size),
      λ failures now cost h. over_burst l failures now ip cost v (omega (arith, size)),
    )

-- Requests of cost 1 from one client at one time, one for each entry of the list, which gives the
-- spurious failures met; with the number of those that are admitted.
unfoldable pub check_each : {f : F64} → RateLimiter f → List ℕ → ℕ → IpAddr → RateLimiter f × ℕ
check_each l [] now ip = (l, 0)
check_each l (n ∷ ns) now ip =
    let (l', admitted) = check l n now ip in
    let (l'', count) = check_each l' ns now ip in (l'', (if admitted then 1 else 0) + count)

module _ {f : F64} (laws : F64Laws f) where
  tokens_to_add_now :
      (l : RateLimiter f) (now : ℕ) (s : ClientState)
      → s.last_refill_ms ≡ now
      → tokens_to_add l now s ≡ 0
  unfolding tokens_to_add
  tokens_to_add_now l now s e =
      let none_elapsed : now - s.last_refill_ms ≡ 0 = omega arith in
      ap (λ k. f.to_u64 (f.mul (f.of_nat k) l.refill_rate_per_ms)) none_elapsed
      ∙ laws.to_u64-zero l.refill_rate_per_ms

  refill_now :
      (l : RateLimiter f) (now : ℕ) (s : ClientState) → s.last_refill_ms ≡ now → refill l now s ≡ s
  unfolding refill
  refill_now l now s e = ground (arith, tokens_to_add_now l now s e)

  check_client_now :
      (l : RateLimiter f) (n now : ℕ) (s : ClientState)
      → s.last_refill_ms ≡ now
      → ((check_client l n now 1 s).0.last_refill_ms ≡ now)
        × ((check_client l n now 1 s).0.tokens + (if (check_client l n now 1 s).1 then 1 else 0)
            ≡ s.tokens)
        × ((check_client l n now 1 s).1 ≡ ltb 0 s.tokens)
  unfolding check_client consume
  check_client_now l n now s e =
      ground (arith, refill_now l now s e, consume_lem n (refill l now s).tokens 1)

  client_of_unknown :
      (l : RateLimiter f) (ip : IpAddr) (now : ℕ)
      → lookup ip l.clients ≡ none
      → client_of l ip now ≡ new_client l.config.burst_size now
  unfolding client_of
  client_of_unknown l ip now e = rw (e, client_of)

  client_of-insert :
      (l : RateLimiter f) (s : ClientState) (ip : IpAddr) (now : ℕ)
      → client_of (record l { clients = insert ip s l.clients }) ip now ≡ s
  unfolding client_of
  client_of-insert l s ip now = rw (lookup-insert_self ip s l.clients, client_of)

  client_of-check :
      (l : RateLimiter f) (n now : ℕ) (ip : IpAddr)
      → client_of (check l n now ip).0 ip now ≡ (check_client l n now 1 (client_of l ip now)).0
  unfolding check check_with_cost client_of
  client_of-check l n now ip = client_of-insert l _ ip now

  check_admits :
      (l : RateLimiter f) (n now : ℕ) (ip : IpAddr)
      → (check l n now ip).1 ≡ (check_client l n now 1 (client_of l ip now)).1
  unfolding check check_with_cost
  check_admits l n now ip = refl

  admitted_at_once :
      (ns : List ℕ) (l : RateLimiter f) (now : ℕ) (ip : IpAddr)
      → (client_of l ip now).last_refill_ms ≡ now
      → (check_each l ns now ip).1 ≡ min (length ns) (client_of l ip now).tokens
  unfolding check_each
  admitted_at_once [] l now ip e = omega arith
  admitted_at_once (n ∷ ns) l now ip e =
      let s = client_of l ip now in
      let (e', left, admitted) = check_client_now l n now s e in
      let l' = (check l n now ip).0 in
      let same : client_of l' ip now ≡ (check_client l n now 1 s).0 = client_of-check l n now ip in
      let ih = admitted_at_once ns l' now ip (rw same e') in
      ground (arith, ih, same, left, admitted, check_admits l n now ip)

  -- Requests of cost 1 that a client not known to the limiter makes at one time: as many are
  -- admitted as the burst size lets, and the rest are refused.
  pub burst_at_once :
      (ns : List ℕ) (l : RateLimiter f) (now : ℕ) (ip : IpAddr)
      → lookup ip l.clients ≡ none
      → (check_each l ns now ip).1 ≡ min (length ns) l.config.burst_size
  unfolding new_client
  burst_at_once ns l now ip e =
      let fresh : client_of l ip now ≡ new_client l.config.burst_size now =
        client_of_unknown l ip now e in
      admitted_at_once ns l now ip (ap (λ (s : ClientState). s.last_refill_ms) fresh)
      ∙ ap (λ (s : ClientState). min (length ns) s.tokens) fresh
