-- ===== src/Float.antt =====
-- `f64`, as an interface: the operations that the program uses, and what IEEE 754 and Rust's casts
-- say of them. `NonNeg x` says that `x` is at least 0 and no NaN; it may be infinite. Numbers up to
-- 2^53 are exact.
use edgeproxy.Prelude.{
  ℕ, ◌+◌, ◌*◌, ◌/◌, ◌^◌, ◌≤◌, ◌<◌, ◌≡◌, Bool, true, false, not, leb, ltb, arith, refl, u64_mod, min,
  ◌-◌,
}

abbrev pub exact : ℕ
exact = 2 ^ 53

pub record F64 : Type 1 where
  pub F : Type 0
  -- `n as f64`, for an unsigned `n`.
  pub of_nat : ℕ → F
  pub max_value : F
  pub add : F → F → F
  pub mul : F → F → F
  pub div : F → F → F
  pub lt : F → F → Bool
  pub ge : F → F → Bool
  -- `x as u64`, which saturates and takes NaN to 0.
  pub to_u64 : F → ℕ

-- The documented behaviour that the theorems use.
pub record F64Laws (f : F64) : Type 1 where
  pub NonNeg : f.F → Type 0
  pub of_nat-NonNeg : (n : ℕ) → NonNeg (f.of_nat n)
  pub max_value-NonNeg : NonNeg f.max_value
  pub add-NonNeg : (x y : f.F) → NonNeg x → NonNeg y → NonNeg (f.add x y)
  pub div-NonNeg : (x : f.F) (n : ℕ) → NonNeg x → 0 < n → NonNeg (f.div x (f.of_nat n))
  pub nonneg : (x : f.F) → NonNeg x → f.lt x (f.of_nat 0) ≡ false
  pub lt_irrefl : (x : f.F) → f.lt x x ≡ false
  pub lt_trans : (x y z : f.F) → f.lt x y ≡ true → f.lt y z ≡ true → f.lt x z ≡ true
  pub le_trans :
      (x y z : f.F)
      → NonNeg x
      → NonNeg y
      → NonNeg z
      → f.lt y x ≡ false
      → f.lt z y ≡ false
      → f.lt z x ≡ false
  pub ge-lt : (x y : f.F) → NonNeg x → NonNeg y → f.ge x y ≡ not (f.lt x y)
  pub of_nat_mono : (m n : ℕ) → m ≤ n → f.lt (f.of_nat n) (f.of_nat m) ≡ false
  pub of_nat_lt : (m n : ℕ) → m < n → n ≤ exact → f.lt (f.of_nat m) (f.of_nat n) ≡ true
  pub of_nat-max_value : (n : ℕ) → n < u64_mod → f.lt (f.of_nat n) f.max_value ≡ true
  pub add_exact : (m n : ℕ) → m + n ≤ exact → f.add (f.of_nat m) (f.of_nat n) ≡ f.of_nat (m + n)
  pub mul_exact : (m n : ℕ) → m * n ≤ exact → f.mul (f.of_nat m) (f.of_nat n) ≡ f.of_nat (m * n)
  pub add_mono :
      (x y z : f.F)
      → NonNeg x
      → NonNeg y
      → NonNeg z
      → f.lt z y ≡ false
      → f.lt (f.add x z) (f.add x y) ≡ false
  pub to_u64-lt : (x : f.F) → f.to_u64 x < u64_mod
  pub to_u64-zero : (x : f.F) → f.to_u64 (f.mul (f.of_nat 0) x) ≡ 0

-- Whole numbers meet these laws, with a division that drops the fraction.
abbrev pub whole : F64
whole = record {
  F = ℕ;
  of_nat = λ n. n;
  max_value = u64_mod;
  add = ◌+◌;
  mul = ◌*◌;
  div = ◌/◌;
  lt = ltb;
  ge = λ a b. leb b a;
  to_u64 = λ n. min n (u64_mod - 1);
}

ltb_trans : (a b c : ℕ) → ltb a b ≡ true → ltb b c ≡ true → ltb a c ≡ true
ltb_trans a b c h k = ground arith

ltb_negative : (a b c : ℕ) → ltb b a ≡ false → ltb c b ≡ false → ltb c a ≡ false
ltb_negative a b c h k = ground arith

leb-ltb : (a b : ℕ) → leb b a ≡ not (ltb a b)
leb-ltb a b = ground arith

ltb_of-le : (m n : ℕ) → m ≤ n → ltb n m ≡ false
ltb_of-le m n h = ground arith

ltb_of-lt : (m n : ℕ) → m < n → ltb m n ≡ true
ltb_of-lt m n h = ground arith

ltb_add : (x y z : ℕ) → ltb z y ≡ false → ltb (x + z) (x + y) ≡ false
ltb_add x y z h = ground arith

min_bound : (n : ℕ) → min n (u64_mod - 1) < u64_mod
min_bound n = omega arith

min-zero : (n : ℕ) → min (0 * n) (u64_mod - 1) ≡ 0
min-zero n = omega arith

pub whole_laws : F64Laws whole
whole_laws = record {
  NonNeg = λ n. Unit {0};
  of_nat-NonNeg = λ n. tt;
  max_value-NonNeg = tt;
  add-NonNeg = λ x y _ _. tt;
  div-NonNeg = λ x n _ _. tt;
  nonneg = λ x _. ltb_of-le 0 x (omega arith);
  lt_irrefl = λ x. ltb_of-le x x (omega arith);
  lt_trans = ltb_trans;
  le_trans = λ x y z _ _ _. ltb_negative x y z;
  ge-lt = λ x y _ _. leb-ltb x y;
  of_nat_mono = ltb_of-le;
  of_nat_lt = λ m n h _. ltb_of-lt m n h;
  of_nat-max_value = λ n h. ltb_of-lt n u64_mod h;
  add_exact = λ m n _. refl;
  mul_exact = λ m n _. refl;
  add_mono = λ x y z _ _ _. ltb_add x y z;
  to_u64-lt = min_bound;
  to_u64-zero = min-zero;
}
