-- ===== src/Balancer/Priority.antt =====
-- What a pick means for capacity and for geography, in numbers.
use edgeproxy.Prelude.{
  ℕ, ◌+◌, ◌*◌, ◌≤◌, ◌<◌, ◌≡◌, refl, Bool, true, false, ◌&&◌, ◌||◌, not, String, List, [], ◌∷◌,
  Option, none, some, if◌then◌else◌, nat_beq, ltb, All, Elem, All-Elem, arith, ◌⊎◌, inl, inr, sym,
  ap, ◌∙◌, u32_mod, u64_mod,
}
use native.Mathlib.Decide.{dec_le}
use edgeproxy.Float.{F64, F64Laws}
use edgeproxy.Domain.{Backend, GeoInfo}
use edgeproxy.Domain.Region.{RegionCode}
use edgeproxy.Balancer.{geo_tier, weighted_load, score, eligible, pick_backend}
use edgeproxy.Balancer.Choice.{
  geo_tier-le, load-NonNeg, tier_exact, score-NonNeg, pick_backend-Picked,
}

-- In the numbers of the backend: healthy, and below the hard limit unless that is 0.
unfoldable pub has_room : (String → ℕ) → Backend → Bool
has_room count b = b.healthy && (nat_beq b.hard_limit 0 || ltb (count b.id) b.hard_limit)

module _ {f : F64} (laws : F64Laws f) (local : RegionCode) (geo : Option GeoInfo)
    (count : String → ℕ) where
  below_hard :
      (n h : ℕ) (t : Bool)
      → n < u64_mod
      → h < u32_mod
      → nat_beq h 0 ≡ t
      → not (f.ge (f.of_nat n) (if t then f.max_value else f.of_nat h)) ≡ (t || ltb n h)
  below_hard n h true bn bh e = ground (
    arith,
    laws.ge-lt (f.of_nat n) f.max_value (laws.of_nat-NonNeg n) laws.max_value-NonNeg,
    laws.of_nat-max_value n bn,
  )
  below_hard n h false bn bh e = ground (
    arith,
    laws.ge-lt (f.of_nat n) (f.of_nat h) (laws.of_nat-NonNeg n) (laws.of_nat-NonNeg h),
    laws.of_nat_mono h n,
    laws.of_nat_lt n h,
  )

  -- The test in `f64` is the test in numbers, for a hard limit that is a `u32` and a count below 2^64.
  eligible-has_room :
      (b : Backend)
      → b.hard_limit < u32_mod
      → count b.id < u64_mod
      → eligible f local geo count b ≡ has_room count b
  unfolding eligible has_room
  eligible-has_room b h n =
      ap (λ t. b.healthy && t) (below_hard (count b.id) b.hard_limit _ n h refl)

  -- The limit is a `u32` and the count a `usize`.
  abbrev pub InRange : Backend → Type 0
  InRange b = (b.hard_limit < u32_mod) × (count b.id < u64_mod)

  none_has_room :
      (bs : List Backend)
      → All InRange bs
      → All (λ c. eligible f local geo count c ≡ false) bs
      → All (λ c. has_room count c ≡ false) bs
  none_has_room [] r a = tt
  none_has_room (c ∷ bs) r a =
      (sym (eligible-has_room c r.0.0 r.0.1) ∙ a.0, none_has_room bs r.1 a.1)

  -- A backend is picked exactly if one of the list is healthy and has fewer connections than its
  -- hard limit, or a hard limit of 0; the one picked is such a backend of the list.
  pub pick_backend-has_room :
      (bs : List Backend)
      → All InRange bs
      → ((pick_backend f local geo count bs ≡ none) × All (λ c. has_room count c ≡ false) bs)
        ⊎ ((b : Backend) × (pick_backend f local geo count bs ≡ some b)
            × Elem b bs
            × (has_room count b ≡ true))
  pick_backend-has_room bs r = elim (pick_backend-Picked laws local geo count bs) [
    | inl (e, a) ↦ inl (e, none_has_room bs r a)
    | inr (b, e, m, t, _) ↦
        let (h, n) = All-Elem InRange m r in inr (b, e, m, sym (eligible-has_room b h n) ∙ t)
  ]

  score_sum :
      (b : Backend)
      → score f local geo count b
        ≡ f.add (f.of_nat (geo_tier b local geo * 100)) (weighted_load f b (count b.id))
  unfolding score
  score_sum b =
      ap (λ y. f.add y (weighted_load f b (count b.id))) (tier_exact laws local geo count b)

  -- A load of at most 99 keeps a score within 99 of its tier.
  score_upper :
      (c : Backend)
      → f.lt (f.of_nat 99) (weighted_load f c (count c.id)) ≡ false
      → f.lt (f.of_nat (geo_tier c local geo * 100 + 99)) (score f local geo count c) ≡ false
  score_upper c l =
      let t = geo_tier c local geo in
      let load = weighted_load f c (count c.id) in
      let sum : f.lt (f.add (f.of_nat (t * 100)) (f.of_nat 99)) (f.add (f.of_nat (t * 100)) load)
          ≡ false =
        laws.add_mono _ _ _ (laws.of_nat-NonNeg _) (load-NonNeg laws c _) (laws.of_nat-NonNeg 99)
          l in
      cc (sum, score_sum c, laws.add_exact (t * 100) 99 (omega (arith, geo_tier-le c local geo)))

  score_lower :
      (b : Backend)
      → f.lt (score f local geo count b) (f.of_nat (geo_tier b local geo * 100)) ≡ false
  score_lower b =
      let t = geo_tier b local geo in
      let load = weighted_load f b (count b.id) in
      let sum : f.lt (f.add (f.of_nat (t * 100)) load) (f.add (f.of_nat (t * 100)) (f.of_nat 0))
          ≡ false =
        laws.add_mono _ _ _ (laws.of_nat-NonNeg _) (laws.of_nat-NonNeg 0) (load-NonNeg laws b _)
          (laws.nonneg load (load-NonNeg laws b _)) in
      let exactly : f.add (f.of_nat (t * 100)) (f.of_nat 0) ≡ f.of_nat (t * 100) =
        laws.add_exact (t * 100) 0 (omega (arith, geo_tier-le b local geo))
        ∙ ap f.of_nat (omega arith) in
      cc (sum, score_sum b, exactly)

  tier_order :
      (b c : Backend)
      → f.lt (f.of_nat 99) (weighted_load f c (count c.id)) ≡ false
      → f.lt (score f local geo count c) (score f local geo count b) ≡ false
      → geo_tier b local geo ≤ geo_tier c local geo
  tier_order b c l h = elim (dec_le (geo_tier b local geo) (geo_tier c local geo)) [
    | yes p ↦ p
    | no p ↦
        let sb = score-NonNeg laws local geo count b in
        let sc = score-NonNeg laws local geo count c in
        let low = geo_tier c local geo * 100 + 99 in
        let high = geo_tier b local geo * 100 in
        let under : f.lt (f.of_nat low) (f.of_nat high) ≡ true =
          laws.of_nat_lt low high (omega arith) (omega (arith, geo_tier-le b local geo)) in
        let above = laws.le_trans _ _ _ (laws.of_nat-NonNeg high) sb sc (score_lower b) h in
        let over =
          laws.le_trans _ _ _ (laws.of_nat-NonNeg high) sc (laws.of_nat-NonNeg low) above
            (score_upper c l) in
        cc (under, over)
  ]

  -- Geography goes first: if a backend `b` is picked, then no eligible backend whose load, its
  -- connections over its soft limit and its weight, is at most 99 is in a better tier than `b`. The
  -- tiers are the client's country, the client's region, the region of the proxy, anywhere.
  pub pick_backend-geo_tier :
      (bs : List Backend) {b c : Backend}
      → pick_backend f local geo count bs ≡ some b
      → Elem c bs
      → eligible f local geo count c ≡ true
      → f.lt (f.of_nat 99) (weighted_load f c (count c.id)) ≡ false
      → geo_tier b local geo ≤ geo_tier c local geo
  pick_backend-geo_tier bs {b} {c} e m t l = elim (pick_backend-Picked laws local geo count bs) [
    | inl (q, _) ↦ cc
    | inr (b', q, _, _, least) ↦
        let lowest : f.lt (score f local geo count c) (score f local geo count b') ≡ false =
          All-Elem
            (λ d.
              eligible f local geo count d ≡ true
              → f.lt (score f local geo count d) (score f local geo count b') ≡ false)
            m least t in
        let same : b ≡ b' = cc in tier_order b c l (rw same lowest)
  ]
