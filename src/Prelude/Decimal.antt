-- ===== src/Prelude/Decimal.antt =====
-- Decimal numerals: `Display` and `parse` of unsigned words.
use Prim.Native.Nat.{ℕ, zero, suc, ◌+◌, ◌*◌, ◌/◌, ◌%◌}
use Prim.Native.String.{String, ◌++◌ as append, slice, len}
use mathlib.Core.Bool.{true, false}
use mathlib.Core.Option.{Option, none, some}
use text.Mathlib.Text.{find?, starts_with}
use edgeproxy.Prelude.Tests.{if◌then◌else◌, ltb, nat_beq}
use edgeproxy.Prelude.Options.{◌>>=◌}

unfoldable pub digit : ℕ → String
digit n = slice "0123456789" n (n + 1)

-- A number of at most one digit more than the fuel.
unfoldable pub decimal : ℕ → ℕ → String
unfolding digit
decimal zero n = digit n
decimal (suc fuel) n =
    let front = decimal fuel (n / 10) in if ltb n 10 then digit n else append front (digit (n % 10))

-- `Display` of a word of 64 bits or less: those have twenty digits at most.
unfoldable pub display : ℕ → String
unfolding decimal
display n = decimal 19 n

unfoldable pub digit_at : String → ℕ → Option ℕ
digit_at s i = elim (ltb i (len s)) [ false ↦ none | true ↦ find? "0123456789" (slice s i (i + 1)) ]

-- The digits from a position on, after those that make up `acc`; the fuel is the number of them.
unfoldable pub parse_digits : ℕ → ℕ → ℕ → String → Option ℕ
unfolding digit_at
parse_digits bound zero acc s = some acc
parse_digits bound (suc left) acc s = do
  d ← digit_at s 0
  if ltb (acc * 10 + d) bound
      then parse_digits bound left (acc * 10 + d) (slice s 1 (len s))
      else none

-- `parse` of an unsigned word below the bound: digits after an optional plus sign, one at least.
unfoldable pub parse_word : ℕ → String → Option ℕ
unfolding parse_digits
parse_word bound s =
    let body = if starts_with s "+" then slice s 1 (len s) else s in
    if nat_beq (len body) 0 then none else parse_digits bound (len body) 0 body
