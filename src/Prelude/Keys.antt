-- ===== src/Prelude/Keys.antt =====
-- Keys of maps: a Boolean equality that decides `≡`, as an interface with its instances.
use Prim.Native.Nat.{ℕ}
use Prim.Native.String.{String}
use mathlib.Core.Path.{◌≡◌, refl}
use mathlib.Core.Bool.{Bool, true}
use text.Mathlib.Text.{◌==◌ as text_beq}
use text.Mathlib.TextEquality.{eq_iff}
use edgeproxy.Prelude.Tests.{nat_beq, nat_beq_iff}

pub record Key {ℓ} (K : Type ℓ) : Type ℓ where
  pub same : K → K → Bool
  pub eq_of_same : (j k : K) → same j k ≡ true → j ≡ k
  pub same_of_eq : (j k : K) → j ≡ k → same j k ≡ true

instance abbrev pub string_key : Key String
string_key = record {
  same = text_beq;
  eq_of_same = λ j k. (eq_iff j k).0;
  same_of_eq = λ j k. (eq_iff j k).1;
}

instance abbrev pub number_key : Key ℕ
number_key = record {
  same = nat_beq;
  eq_of_same = λ j k. (nat_beq_iff j k).0;
  same_of_eq = λ j k. (nat_beq_iff j k).1;
}

module _ {ℓ} {K : Type ℓ} ⦃o : Key K⦄ where
  infix 50 ◌==◌
  abbrev pub ◌==◌ : K → K → Bool
  j == k = o.same j k

  pub ==_refl : (k : K) → (k == k) ≡ true
  ==_refl k = o.same_of_eq k k refl
