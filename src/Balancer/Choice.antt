-- ===== src/Balancer/Choice.antt =====
-- What the scan returns: the first of the best eligible backends.
use edgeproxy.Prelude.{
  ℕ, ◌*◌, ◌≤◌, ◌≡◌, refl, Bool, true, false, String, List, [], ◌∷◌, Option, none, some,
  if◌then◌else◌, nat_beq, All, Elem, here, there, arith, ◌⊎◌, inl, inr, Bool-cases, sym,
}
use mathlib.Core.Path.{subst}
use edgeproxy.Float.{F64, F64Laws}
use edgeproxy.Domain.{Backend, GeoInfo}
use edgeproxy.Domain.Region.{RegionCode}
use edgeproxy.Balancer.{
  calculate_geo_score, geo_tier, soft_of, weight_of, weighted_load, score, eligible, better, scan,
  pick_backend,
}

pub geo_tier-le :
    (b : Backend) (local : RegionCode) (geo : Option GeoInfo) → geo_tier b local geo ≤ 3
unfolding geo_tier
geo_tier-le b local none = ground arith
geo_tier-le b local (some geo) = ground arith

module _ {f : F64} (laws : F64Laws f) where
  div-NonNeg_or_one :
      (t : Bool) (x : f.F) (n : ℕ)
      → nat_beq n 0 ≡ t
      → laws.NonNeg x
      → laws.NonNeg (f.div x (if t then f.of_nat 1 else f.of_nat n))
  div-NonNeg_or_one true x n e h = laws.div-NonNeg x 1 h (omega arith)
  div-NonNeg_or_one false x n e h = laws.div-NonNeg x n h (ground arith)

  pub load-NonNeg : (b : Backend) (n : ℕ) → laws.NonNeg (weighted_load f b n)
  unfolding weighted_load soft_of weight_of
  load-NonNeg b n =
      div-NonNeg_or_one _ _ b.weight refl
        (div-NonNeg_or_one _ _ b.soft_limit refl (laws.of_nat-NonNeg n))

  module _ (local : RegionCode) (geo : Option GeoInfo) (count : String → ℕ) where
    abbrev scores : Backend → f.F
    scores = score f local geo count

    abbrev fits : Backend → Bool
    fits = eligible f local geo count

    -- 100 times a tier of at most 3.
    pub tier_exact :
        (b : Backend)
        → f.mul (calculate_geo_score f b local geo) (f.of_nat 100)
          ≡ f.of_nat (geo_tier b local geo * 100)
    unfolding calculate_geo_score
    tier_exact b =
        laws.mul_exact (geo_tier b local geo) 100 (omega (arith, geo_tier-le b local geo))

    pub score-NonNeg : (b : Backend) → laws.NonNeg (scores b)
    unfolding score
    score-NonNeg b =
        laws.add-NonNeg _ _ (subst laws.NonNeg (sym (tier_exact b)) (laws.of_nat-NonNeg _))
          (load-NonNeg b (count b.id))

    -- No eligible backend of the list scores below `s`.
    abbrev pub Least : f.F → List Backend → Type 0
    Least s = All (λ c. fits c ≡ true → f.lt (scores c) s ≡ false)

    -- The scan of `bs` from the best `a` so far gives a backend `b`.
    abbrev Outcome : Backend → List Backend → Option (Backend × f.F) → Type 0
    Outcome a bs r =
        (b : Backend) × (r ≡ some (b, scores b))
        × ((b ≡ a) ⊎ (Elem b bs × (fits b ≡ true)))
        × (f.lt (scores a) (scores b) ≡ false)
        × Least (scores b) bs

    lower_still :
        (a b c : Backend)
        → f.lt (scores c) (scores a) ≡ true
        → f.lt (scores c) (scores b) ≡ false
        → f.lt (scores a) (scores b) ≡ false
    lower_still a b c h k = elim (Bool-cases (f.lt (scores a) (scores b))) [
      | inl e ↦ cc (laws.lt_trans _ _ _ h e)
      | inr e ↦ e
    ]

    not_lower :
        (a b c : Backend)
        → f.lt (scores c) (scores a) ≡ false
        → f.lt (scores a) (scores b) ≡ false
        → f.lt (scores c) (scores b) ≡ false
    not_lower a b c h k =
        laws.le_trans (scores b) (scores a) (scores c) (score-NonNeg b) (score-NonNeg a)
          (score-NonNeg c) k h

    scan_step :
        (a c : Backend) (bs : List Backend) (t u : Bool)
        → fits c ≡ t
        → f.lt (scores c) (scores a) ≡ u
        → Outcome a bs (scan f local geo count (some (a, scores a)) bs)
        → Outcome c bs (scan f local geo count (some (c, scores c)) bs)
        → Outcome a (c ∷ bs) (
            scan f local geo count
              (if t
                then if u then some (c, scores c) else some (a, scores a)
                else some (a, scores a))
              bs)
    scan_step a c bs false u e v (b, r, inl same, h, l) _ = (b, r, inl same, h, ((λ p. cc), l))
    scan_step a c bs false u e v (b, r, inr (m, q), h, l) _ =
        (b, r, inr (there c bs m, q), h, ((λ p. cc), l))
    scan_step a c bs true true e v _ (b, r, inl same, h, l) =
        (b, r, inr (here c bs same, rw same e), lower_still a b c v h, ((λ _. h), l))
    scan_step a c bs true true e v _ (b, r, inr (m, q), h, l) =
        (b, r, inr (there c bs m, q), lower_still a b c v h, ((λ _. h), l))
    scan_step a c bs true false e v (b, r, inl same, h, l) _ =
        (b, r, inl same, h, ((λ _. not_lower a b c v h), l))
    scan_step a c bs true false e v (b, r, inr (m, q), h, l) _ =
        (b, r, inr (there c bs m, q), h, ((λ _. not_lower a b c v h), l))

    scan-some :
        (bs : List Backend) (a : Backend)
        → Outcome a bs (scan f local geo count (some (a, scores a)) bs)
    unfolding scan better
    scan-some [] a = (a, refl, inl refl, laws.lt_irrefl _, tt)
    scan-some (c ∷ bs) a =
        scan_step a c bs (fits c) (f.lt (scores c) (scores a)) refl refl (scan-some bs a)
          (scan-some bs c)

    -- Either no backend is eligible and none is picked, or the one picked is an eligible backend of
    -- the list, and no eligible backend of the list scores below it.
    abbrev pub Picked : List Backend → Option Backend → Type 0
    Picked bs r =
        ((r ≡ none) × All (λ c. fits c ≡ false) bs)
        ⊎ ((b : Backend) × (r ≡ some b) × Elem b bs × (fits b ≡ true) × Least (scores b) bs)

    abbrev chosen : Option (Backend × f.F) → Option Backend
    chosen r = elim r [ none ↦ none | some (b, _) ↦ some b ]

    started :
        (c : Backend) (bs : List Backend) (r : Option (Backend × f.F))
        → fits c ≡ true
        → Outcome c bs r
        → Picked (c ∷ bs) (chosen r)
    started c bs r e (b, q, inl same, h, l) =
        inr (b, rw q, here c bs same, rw same e, ((λ _. h), l))
    started c bs r e (b, q, inr (m, p), h, l) = inr (b, rw q, there c bs m, p, ((λ _. h), l))

    skipped :
        (c : Backend) (bs : List Backend) (r : Option Backend)
        → fits c ≡ false
        → Picked bs r
        → Picked (c ∷ bs) r
    skipped c bs r e (inl (q, all)) = inl (q, (e, all))
    skipped c bs r e (inr (b, q, m, p, l)) = inr (b, q, there c bs m, p, ((λ t. cc), l))

    scan-none : (bs : List Backend) → Picked bs (chosen (scan f local geo count none bs))
    unfolding scan better
    scan-none [] = inl (refl, tt)
    scan-none (c ∷ bs) = go (fits c) refl (scan-none bs) (scan-some bs c)
      where
        go :
            (t : Bool)
            → fits c ≡ t
            → Picked bs (chosen (scan f local geo count none bs))
            → Outcome c bs (scan f local geo count (some (c, scores c)) bs)
            → Picked
                (c ∷ bs)
                (chosen (scan f local geo count (if t then some (c, scores c) else none) bs))
        go true e _ o = started c bs _ e o
        go false e p _ = skipped c bs _ e p

    -- `pick_backend` picks a backend exactly if one is eligible: healthy and below its hard limit. It
    -- picks an eligible one, than which no eligible one scores lower.
    pub pick_backend-Picked : (bs : List Backend) → Picked bs (pick_backend f local geo count bs)
    unfolding pick_backend
    pick_backend-Picked bs = scan-none bs
