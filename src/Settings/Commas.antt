-- ===== src/Settings/Commas.antt =====
-- The first comma of a text.
use Prim.Native.Nat.{compare, Ordering}
use Prim.Native.Char.{Char, code, len_utf8, len_utf8_def, width}
use mathlib.Core.Path.{subst}
use Prim.Native.String.find
use Prim.Native.String.append as appending
use Prim.Native.String.len as length_laws
use Prim.Native.String.{[], ◌∷◌, same, ◌++◌ as append, slice, len, find}
use text.Mathlib.Text.{find?, is_le}
use text.Mathlib.TextFind.{find_cases}
use text.Mathlib.TextLemmas.{append_assoc}
use text.Mathlib.TextPositions.{len-append, slice-append_left, slice-append_right}
use edgeproxy.Prelude.{
  ℕ, suc, ◌≤◌, ◌+◌, ◌≡◌, refl, sym, ap, ◌∙◌, String, none, some, true, false, ◌⊎◌, inl, inr, arith,
}

is_le-true : (a b : ℕ) → a ≤ b → is_le (compare a b) ≡ true
is_le-true a b le = ground arith

is_le-false : (a b : ℕ) → suc b ≤ a → is_le (compare a b) ≡ false
is_le-false a b lt = ground arith

find-cons :
    (c : Char) (s : String)
    → find (c ∷ s) "," ≡ same (compare (code c) 44) 0 (len_utf8 c + find s ",")
find-cons c s = find.cons c s ","

width-positive : (a b d : Ordering) → 1 ≤ width a b d
width-positive Ordering.lt b d = omega arith
width-positive Ordering.eq Ordering.lt d = omega arith
width-positive Ordering.eq Ordering.eq Ordering.lt = omega arith
width-positive Ordering.eq Ordering.eq Ordering.eq = omega arith
width-positive Ordering.eq Ordering.eq Ordering.gt = omega arith
width-positive Ordering.eq Ordering.gt Ordering.lt = omega arith
width-positive Ordering.eq Ordering.gt Ordering.eq = omega arith
width-positive Ordering.eq Ordering.gt Ordering.gt = omega arith
width-positive Ordering.gt Ordering.lt d = omega arith
width-positive Ordering.gt Ordering.eq Ordering.lt = omega arith
width-positive Ordering.gt Ordering.eq Ordering.eq = omega arith
width-positive Ordering.gt Ordering.eq Ordering.gt = omega arith
width-positive Ordering.gt Ordering.gt Ordering.lt = omega arith
width-positive Ordering.gt Ordering.gt Ordering.eq = omega arith
width-positive Ordering.gt Ordering.gt Ordering.gt = omega arith

later_comma :
    (o : Ordering) (w f g l : ℕ)
    → 1 ≤ w
    → same o 0 (w + f) ≡ w + l
    → (f ≡ l → g ≡ suc l)
    → same o 0 (w + g) ≡ suc (w + l)
later_comma Ordering.lt w f g l wide at rest = omega (arith, rest (omega arith))
later_comma Ordering.eq w f g l wide at rest = absurd (omega arith)
later_comma Ordering.gt w f g l wide at rest = omega (arith, rest (omega arith))

-- What stands before the comma that is found has no comma.
find-before : (u v : String) → find (append u (append "," v)) "," ≡ len u → find u "," ≡ suc (len u)
find-before [] v at = refl
find-before (c ∷ u) v at =
    let wide : 1 ≤ len_utf8 c =
      subst (λ w. 1 ≤ w) (sym (len_utf8_def c))
        (width-positive (compare (code c) 128) (compare (code c) 2048) (compare (code c) 65536)) in
    let whole : find (append (c ∷ u) (append "," v)) ","
        ≡ same (compare (code c) 44) 0 (len_utf8 c + find (append u (append "," v)) ",") =
      ap (λ t. find t ",") (appending.cons c u (append "," v))
      ∙ find-cons c (append u (append "," v)) in
    let next : len (c ∷ u) ≡ len_utf8 c + len u = length_laws.cons c u in
    find-cons c u
    ∙ later_comma (compare (code c) 44) (len_utf8 c) (find (append u (append "," v)) ",")
        (find u ",") (len u) wide (sym whole ∙ at ∙ next) (find-before u v)
    ∙ ap suc (sym next)

missed : (s : String) → find s "," ≡ suc (len s) → find? s "," ≡ none
missed s miss = rw (is_le-false (find s ",") (len s) (omega (arith, miss))) refl

-- The first comma: what stands before it, and the rest.
abbrev pub FirstComma : String → Type 0
FirstComma s =
    (u : String) × (v : String) × (find? s "," ≡ some (len u))
    × (find? u "," ≡ none)
    × (s ≡ append u (append "," v))

pub len-comma : (s u v : String) → s ≡ append u (append "," v) → len s ≡ len u + (1 + len v)
len-comma s u v e = ap len e ∙ len-append u (append "," v) ∙ ap (λ n. len u + n) (len-append "," v)

pub cut : (s : String) → (find? s "," ≡ none) ⊎ FirstComma s
cut s = elim (find_cases s ",") [
  | inr miss ↦ inl (missed s miss)
  | inl (u, v, e, at) ↦
      let fits : find s "," ≤ len s = omega (arith, at, len-comma s u v e) in
      inr (
        u,
        v,
        rw (is_le-true (find s ",") (len s) fits) (ap some at),
        missed u (find-before u v (ap (λ t. find t ",") (sym e) ∙ at)),
        e,
      )
]

pub before_comma : (s : String) (c : FirstComma s) → slice s 0 (len c.0) ≡ c.0
before_comma s (u, v, _, _, e) = ap (λ t. slice t 0 (len u)) e ∙ slice-append_left u (append "," v)

pub from_comma : (s : String) (c : FirstComma s) → slice s (len c.0 + 1) (len s) ≡ c.1
from_comma s (u, v, _, _, e) =
    let front = append u "," in
    let reached : len front ≡ len u + 1 = len-append u "," in
    let whole : s ≡ append front v = e ∙ sym (append_assoc u "," v) in
    ap (λ k. slice s k (len s)) (sym reached)
    ∙ ap (λ t. slice t (len front) (len t)) whole
    ∙ ap (slice (append front v) (len front)) (len-append front v)
    ∙ slice-append_right front v
