-- ===== src/Prelude/Distinct.antt =====
-- Association lists in which each key stands once, as in the maps that they model.
use mathlib.Core.Path.{◌≡◌, refl, sym, ap, subst, ◌∙◌}
use mathlib.Core.Bool.{Bool, true, false}
use mathlib.Core.List.{List, [], ◌∷◌}
use mathlib.Core.Option.{Option, none, some}
use native.Mathlib.Omega.{arith}
use edgeproxy.Prelude.Tests.{if◌then◌else◌}
use edgeproxy.Prelude.Lists.{retain}
use edgeproxy.Prelude.Keys.{Key, ◌==◌}
use edgeproxy.Prelude.Assoc.{lookup, insert, remove, lookup-insert, lookup-remove}

module _ {ℓ κ} {K : Type ℓ} {V : Type κ} ⦃o : Key K⦄ where
  abbrev pub Unique : List (K × V) → Type κ
  Unique [] = Unit
  Unique (e ∷ es) = (lookup e.0 es ≡ none) × Unique es

  insert_step :
      (k : K) (v : V) (e : K × V) (es : List (K × V)) (t : Bool)
      → (e.0 == k) ≡ t
      → Unique (e ∷ es)
      → Unique (insert k v es)
      → Unique (if t then (k, v) ∷ es else e ∷ insert k v es)
  insert_step k v e es true h u ih = (ground (arith, o.eq_of_same e.0 k), u.1)
  insert_step k v e es false h u ih =
      (ground (arith, lookup-insert k e.0 v es, o.eq_of_same k e.0, o.same_of_eq e.0 k), ih)

  pub insert-Unique : (k : K) (v : V) (es : List (K × V)) → Unique es → Unique (insert k v es)
  unfolding insert lookup
  insert-Unique k v [] u = (refl, tt)
  insert-Unique k v (e ∷ es) u = insert_step k v e es (e.0 == k) refl u (insert-Unique k v es u.1)

  remove_step :
      (k : K) (e : K × V) (es : List (K × V)) (t : Bool)
      → Unique (e ∷ es)
      → Unique (remove k es)
      → Unique (if t then remove k es else e ∷ remove k es)
  remove_step k e es true u ih = ih
  remove_step k e es false u ih = (ground (arith, lookup-remove k e.0 es), ih)

  pub remove-Unique : (k : K) (es : List (K × V)) → Unique es → Unique (remove k es)
  unfolding remove
  remove-Unique k [] u = tt
  remove-Unique k (e ∷ es) u = remove_step k e es (e.0 == k) u (remove-Unique k es u.1)

  -- What a lookup gives after the entries that fail a test are dropped.
  abbrev pub passing : (K × V → Bool) → K → Option V → Option V
  passing p k none = none
  passing p k (some v) = if p (k, v) then some v else none

  retain_step :
      (p : K × V → Bool) (k : K) (e : K × V) (es : List (K × V)) (t u : Bool)
      → (e.0 == k) ≡ t
      → p e ≡ u
      → lookup e.0 es ≡ none
      → lookup k (retain p es) ≡ passing p k (lookup k es)
      → lookup k (if u then e ∷ retain p es else retain p es)
        ≡ passing p k (if t then some e.1 else lookup k es)
  unfolding lookup
  retain_step p k e es true true h g n ih =
      let q : p (k, e.1) ≡ true = ap (λ j. p (j, e.1)) (sym (o.eq_of_same e.0 k h)) ∙ g in rw (h, q)
  retain_step p k e es true false h g n ih =
      let same : e.0 ≡ k = o.eq_of_same e.0 k h in
      let q : p (k, e.1) ≡ false = ap (λ j. p (j, e.1)) (sym same) ∙ g in
      let miss : lookup k es ≡ none = subst (λ j. lookup j es ≡ none) same n in
      rw q (ih ∙ ap (passing p k) miss)
  retain_step p k e es false true h g n ih = rw h ih
  retain_step p k e es false false h g n ih = ih

  pub lookup-retain :
      (p : K × V → Bool) (k : K) (es : List (K × V))
      → Unique es
      → lookup k (retain p es) ≡ passing p k (lookup k es)
  unfolding lookup
  lookup-retain p k [] u = refl
  lookup-retain p k (e ∷ es) u =
      retain_step p k e es (e.0 == k) (p e) refl refl u.0 (lookup-retain p k es u.1)
