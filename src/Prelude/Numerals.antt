-- ===== src/Prelude/Numerals.antt =====
-- What `parse` makes of what `Display` wrote of an unsigned word.
use Prim.Native.Nat.{ℕ, zero, suc, ◌+◌, ◌*◌, ◌/◌, ◌%◌, ◌^◌, ◌<◌, ◌≤◌}
use Prim.Native.String.{String, ◌++◌ as append, slice, len, compare}
use mathlib.Core.Bool.{true, false}
use mathlib.Core.Option.{some}
use mathlib.Core.Logic.{inl, inr}
use mathlib.Core.Path.{◌≡◌, refl, sym, ap, ◌∙◌}
use native.Mathlib.Omega.{arith}
use text.Mathlib.Text.{find?, starts_with, is_eq}
use text.Mathlib.TextLemmas.{append_assoc, append-nil}
use text.Mathlib.TextPositions.{len-append, slice-append_left, slice-append_right}
use edgeproxy.Prelude.Tests.{Bool-cases, ltb, nat_beq}
use edgeproxy.Prelude.Decimal.{digit, decimal, display, digit_at, parse_digits, parse_word}

-- A digit takes one byte, stands at its own place among the digits, and is no plus sign.
abbrev IsDigit : ℕ → String → Type 0
IsDigit n s = (len s ≡ 1) × (find? "0123456789" s ≡ some n) × (is_eq (compare s "+") ≡ false)

digit-IsDigit : (n : ℕ) → n < 10 → IsDigit n (digit n)
unfolding digit
digit-IsDigit zero below = (refl, refl, refl)
digit-IsDigit (suc zero) below = (refl, refl, refl)
digit-IsDigit (suc (suc zero)) below = (refl, refl, refl)
digit-IsDigit (suc (suc (suc zero))) below = (refl, refl, refl)
digit-IsDigit (suc (suc (suc (suc zero)))) below = (refl, refl, refl)
digit-IsDigit (suc (suc (suc (suc (suc zero))))) below = (refl, refl, refl)
digit-IsDigit (suc (suc (suc (suc (suc (suc zero)))))) below = (refl, refl, refl)
digit-IsDigit (suc (suc (suc (suc (suc (suc (suc zero))))))) below = (refl, refl, refl)
digit-IsDigit (suc (suc (suc (suc (suc (suc (suc (suc zero)))))))) below = (refl, refl, refl)
digit-IsDigit (suc (suc (suc (suc (suc (suc (suc (suc (suc zero))))))))) below = (refl, refl, refl)
digit-IsDigit (suc (suc (suc (suc (suc (suc (suc (suc (suc (suc n)))))))))) below =
    absurd (omega (arith, below))

module _ (n : ℕ) (s rest : String) (d : IsDigit n s) where
  first_byte : slice (append s rest) 0 1 ≡ s
  first_byte = ap (λ k. slice (append s rest) 0 k) (sym d.0) ∙ slice-append_left s rest

  other_bytes : slice (append s rest) 1 (len (append s rest)) ≡ rest
  other_bytes =
      ap (λ k. slice (append s rest) k (len (append s rest))) (sym d.0)
      ∙ ap (λ k. slice (append s rest) (len s) k) (len-append s rest)
      ∙ slice-append_right s rest

  not_empty : ltb 0 (len (append s rest)) ≡ true
  not_empty = rw (len-append s rest, d.0) (ground arith)

  digit_at-append : digit_at (append s rest) 0 ≡ some n
  unfolding digit_at
  digit_at-append = rw (not_empty, first_byte, digit_at) d.1

  parse_digits-append :
      (bound left acc : ℕ)
      → acc * 10 + n < bound
      → parse_digits bound (suc left) acc (append s rest)
        ≡ parse_digits bound left (acc * 10 + n) rest
  unfolding parse_digits
  parse_digits-append bound left acc below =
      let fits : ltb (acc * 10 + n) bound ≡ true = ground arith in
      rw (digit_at-append, fits, other_bytes) refl

-- The numbers that one digit more than the fuel can write.
abbrev tens : ℕ → ℕ
tens zero = 10
tens (suc fuel) = 10 * tens fuel

last_digit :
    (bound n left : ℕ) (front rest : String)
    → n < bound
    → ((more : String)
        → parse_digits bound (len front + suc left) 0 (append front more)
          ≡ parse_digits bound (suc left) (n / 10) more)
    → parse_digits bound
        (len (append front (digit (n % 10))) + left)
        0
        (append (append front (digit (n % 10))) rest)
      ≡ parse_digits bound left n rest
last_digit bound n left front rest below before =
    let last = digit (n % 10) in
    let d : IsDigit (n % 10) last = digit-IsDigit (n % 10) (omega arith) in
    let counted : len (append front last) + left ≡ len front + suc left =
      omega (arith, len-append front last, d.0) in
    let whole : n / 10 * 10 + n % 10 ≡ n = omega arith in
    ap (λ k. parse_digits bound k 0 (append (append front last) rest)) counted
    ∙ ap (parse_digits bound (len front + suc left) 0) (append_assoc front last rest)
    ∙ before (append last rest)
    ∙ parse_digits-append (n % 10) last rest d bound left (n / 10) (omega (arith, whole))
    ∙ ap (λ k. parse_digits bound left k rest) whole

only_digit :
    (bound n left : ℕ) (rest : String)
    → n < bound
    → n < 10
    → parse_digits bound (len (digit n) + left) 0 (append (digit n) rest)
      ≡ parse_digits bound left n rest
only_digit bound n left rest below small =
    let d : IsDigit n (digit n) = digit-IsDigit n small in
    let counted : len (digit n) + left ≡ suc left = omega (arith, d.0) in
    let whole : 0 * 10 + n ≡ n = omega arith in
    ap (λ k. parse_digits bound k 0 (append (digit n) rest)) counted
    ∙ parse_digits-append n (digit n) rest d bound left 0 (omega arith)
    ∙ ap (λ k. parse_digits bound left k rest) whole

parse_digits-decimal :
    (bound fuel n left : ℕ) (rest : String)
    → n < bound
    → n < tens fuel
    → parse_digits bound (len (decimal fuel n) + left) 0 (append (decimal fuel n) rest)
      ≡ parse_digits bound left n rest
unfolding decimal
parse_digits-decimal bound zero n left rest below enough = only_digit bound n left rest below enough
parse_digits-decimal bound (suc fuel) n left rest below enough = elim (Bool-cases (ltb n 10)) [
  | inl small ↦ rw small (only_digit bound n left rest below (ground (arith, small)))
  | inr large ↦ rw large (
      last_digit bound n left (decimal fuel (n / 10)) rest below (λ more.
        parse_digits-decimal bound fuel (n / 10) (suc left) more (omega arith) (omega arith)))
]

-- The numeral begins with a digit.
decimal-first :
    (fuel n : ℕ)
    → n < tens fuel
    → (k : ℕ) × (first : String) × (rest : String) × IsDigit k first
      × (decimal fuel n ≡ append first rest)
unfolding decimal
decimal-first zero n enough = (n, digit n, "", digit-IsDigit n enough, sym (append-nil (digit n)))
decimal-first (suc fuel) n enough = elim (Bool-cases (ltb n 10)) [
  | inl small ↦ (
    n,
    digit n,
    "",
    digit-IsDigit n (ground (arith, small)),
    rw small (sym (append-nil (digit n))),
  )
  | inr large ↦
      let (k, first, rest, d, e) = decimal-first fuel (n / 10) (omega arith) in
      (
        k,
        first,
        append rest (digit (n % 10)),
        d,
        rw (large, e) (append_assoc first rest (digit (n % 10))),
      )
]

starts_with-first :
    (k : ℕ) (first rest : String) → IsDigit k first → starts_with (append first rest) "+" ≡ false
starts_with-first k first rest d = ap (λ u. is_eq (compare u "+")) (first_byte k first rest d) ∙ d.2

len-first :
    (k : ℕ) (first rest : String) → IsDigit k first → nat_beq (len (append first rest)) 0 ≡ false
len-first k first rest d = rw (len-append first rest, d.0) (ground arith)

parse_word-decimal :
    (bound fuel n : ℕ) → n < bound → n < tens fuel → parse_word bound (decimal fuel n) ≡ some n
unfolding parse_word parse_digits
parse_word-decimal bound fuel n below enough =
    let (k, first, rest, d, e) = decimal-first fuel n enough in
    let s = decimal fuel n in
    let unsigned : starts_with s "+" ≡ false =
      ap (λ t. starts_with t "+") e ∙ starts_with-first k first rest d in
    let some_digit : nat_beq (len s) 0 ≡ false =
      ap (λ t. nat_beq (len t) 0) e ∙ len-first k first rest d in
    let none_left : len s ≡ len s + 0 = omega arith in
    rw (unsigned, some_digit, parse_word)
      (ap (λ m. parse_digits bound m 0 s) none_left
        ∙ ap (parse_digits bound (len s + 0) 0) (sym (append-nil s))
        ∙ parse_digits-decimal bound fuel n 0 "" below enough)

-- The numeral of a number is read as the number where it is in the bounds.
pub parse_word-display :
    (bound n : ℕ) → n < bound → bound ≤ 10 ^ 20 → parse_word bound (display n) ≡ some n
unfolding display
parse_word-display bound n below fits = parse_word-decimal bound 19 n below (omega arith)
