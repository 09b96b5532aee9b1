-- ===== src/Prelude/Removal.antt =====
-- Removing the entries of a map that meet a test, in two loops: the keys are collected, then removed.
use mathlib.Core.Path.{◌≡◌, refl, ◌∙◌}
use mathlib.Core.Bool.{Bool, false, not}
use mathlib.Core.List.{List, [], ◌∷◌}
use mathlib.Core.Option.{none}
use native.Mathlib.Omega.{arith}
use edgeproxy.Prelude.Tests.{if◌then◌else◌}
use edgeproxy.Prelude.Keys.{Key}
use edgeproxy.Prelude.Assoc.{lookup, remove, contains, lookup-remove}
use edgeproxy.Prelude.Distinct.{Unique, remove-Unique, passing}

module _ {ℓ κ} {K : Type ℓ} {V : Type κ} ⦃o : Key K⦄ where
  abbrev pub keys_where : (V → Bool) → List (K × V) → List K
  keys_where p [] = []
  keys_where p (e ∷ es) = if p e.1 then e.0 ∷ keys_where p es else keys_where p es

  unfoldable pub remove_all : List K → List (K × V) → List (K × V)
  remove_all [] es = es
  remove_all (k ∷ ks) es = remove_all ks (remove k es)

  pub remove_all-Unique : (ks : List K) (es : List (K × V)) → Unique es → Unique (remove_all ks es)
  unfolding remove_all
  remove_all-Unique [] es u = u
  remove_all-Unique (k ∷ ks) es u = remove_all-Unique ks (remove k es) (remove-Unique k es u)

  lookup-remove_all :
      (ks : List K) (j : K) (es : List (K × V))
      → lookup j (remove_all ks es) ≡ (if contains j ks then none else lookup j es)
  unfolding remove_all contains
  lookup-remove_all [] j es = refl
  lookup-remove_all (k ∷ ks) j es =
      ground (arith, lookup-remove_all ks j (remove k es), lookup-remove k j es)

  contains_absent :
      (p : V → Bool) (j : K) (es : List (K × V))
      → lookup j es ≡ none
      → contains j (keys_where p es) ≡ false
  unfolding contains lookup
  contains_absent p j [] h = refl
  contains_absent p j (e ∷ es) h = ground (arith, contains_absent p j es)

  contains-passing :
      (p : V → Bool) (j : K) (es : List (K × V))
      → Unique es
      → (if contains j (keys_where p es) then none else lookup j es)
        ≡ passing (λ e. not (p e.1)) j (lookup j es)
  unfolding contains lookup
  contains-passing p j [] u = refl
  contains-passing p j (e ∷ es) u =
      ground (arith, contains-passing p j es u.1, contains_absent p e.0 es u.0, o.eq_of_same e.0 j)

  -- What is left is what does not meet the test.
  pub lookup-remove_where :
      (p : V → Bool) (j : K) (es : List (K × V))
      → Unique es
      → lookup j (remove_all (keys_where p es) es) ≡ passing (λ e. not (p e.1)) j (lookup j es)
  lookup-remove_where p j es u =
      lookup-remove_all (keys_where p es) j es ∙ contains-passing p j es u
