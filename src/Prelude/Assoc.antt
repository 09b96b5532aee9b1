-- ===== src/Prelude/Assoc.antt =====
-- Maps as association lists: what the program uses of `HashMap` and `DashMap`.
use mathlib.Core.Path.{◌≡◌, refl, ap}
use mathlib.Core.List.{List, [], ◌∷◌, map}
use mathlib.Core.Logic.{inl, inr}
use mathlib.Core.Bool.{Bool, true, false}
use mathlib.Core.Option.{Option, none, some}
use native.Mathlib.Omega.{arith}
use edgeproxy.Prelude.Tests.{if◌then◌else◌, Bool-cases}
use edgeproxy.Prelude.Keys.{Key, ◌==◌, ==_refl}

unfoldable pub contains {ℓ} : {K : Type ℓ} → ⦃o : Key K⦄ → K → List K → Bool
contains k [] = false
contains k (x ∷ xs) = if x == k then true else contains k xs

module _ {ℓ κ} {K : Type ℓ} {V : Type κ} ⦃o : Key K⦄ where
  unfoldable pub lookup : K → List (K × V) → Option V
  lookup k [] = none
  lookup k (e ∷ es) = if e.0 == k then some e.1 else lookup k es

  -- The entry of the key is replaced where it stands, or a new one goes to the end.
  unfoldable pub insert : K → V → List (K × V) → List (K × V)
  insert k v [] = (k, v) ∷ []
  insert k v (e ∷ es) = if e.0 == k then (k, v) ∷ es else e ∷ insert k v es

  unfoldable pub remove : K → List (K × V) → List (K × V)
  remove k [] = []
  remove k (e ∷ es) = if e.0 == k then remove k es else e ∷ remove k es

  module _ (k j : K) where
    pub lookup-insert :
        (v : V) (es : List (K × V))
        → lookup j (insert k v es) ≡ (if k == j then some v else lookup j es)
    unfolding lookup insert
    lookup-insert v [] = refl
    lookup-insert v (e ∷ es) =
        ground (arith, o.eq_of_same k j, o.eq_of_same e.0 k, o.same_of_eq e.0 j, lookup-insert v es)

    pub lookup-remove :
        (es : List (K × V)) → lookup j (remove k es) ≡ (if k == j then none else lookup j es)
    unfolding lookup remove
    lookup-remove [] = ground arith
    lookup-remove (e ∷ es) = ground (
      arith,
      o.eq_of_same k j,
      o.eq_of_same e.0 k,
      o.eq_of_same e.0 j,
      o.same_of_eq e.0 j,
      o.same_of_eq e.0 k,
      o.same_of_eq k j,
      lookup-remove es,
    )

  pub lookup-insert_self : (k : K) (v : V) (es : List (K × V)) → lookup k (insert k v es) ≡ some v
  lookup-insert_self k v es = rw (lookup-insert k k v es, ==_refl k)

pub lookup-map {ℓ κ μ} :
    {K : Type ℓ} {V : Type κ} {W : Type μ} ⦃o : Key K⦄ (g : K → V → W) (j : K) (es : List (K × V))
    → lookup j (map (λ e. (e.0, g e.0 e.1)) es)
      ≡ (elim (lookup j es) as (λ _. Option W) [ none ↦ none | some v ↦ some (g j v) ])
unfolding lookup
lookup-map g j [] = refl
lookup-map ⦃o⦄ g j (e ∷ es) = elim (Bool-cases (e.0 == j)) [
  | inl h ↦ rw h (ap (λ k. some (g k e.1)) (o.eq_of_same e.0 j h))
  | inr h ↦ rw h (lookup-map g j es)
]
