-- ===== src/Prelude/Words.antt =====
-- Machine words and durations. A `u32`, `u64` or `usize` is a number below its modulus; a
-- `Duration` is its number of nanoseconds.
use Prim.Native.Nat.{ℕ, ◌+◌, ◌-◌, ◌*◌, ◌/◌, ◌%◌, ◌^◌}

abbrev pub u32_mod : ℕ
u32_mod = 2 ^ 32

abbrev pub u64_mod : ℕ
u64_mod = 2 ^ 64

-- `x + 1` and the value that `fetch_add(1)` stores, in 32 and in 64 bits.
abbrev pub inc32 : ℕ → ℕ
inc32 x = (x + 1) % u32_mod

abbrev pub inc64 : ℕ → ℕ
inc64 x = (x + 1) % u64_mod

-- The value that `fetch_sub(1)` stores on a `usize`.
abbrev pub dec64 : ℕ → ℕ
dec64 x = (x + u64_mod - 1) % u64_mod

-- `saturating_sub` of unsigned words is the truncated difference.
abbrev pub saturating_sub : ℕ → ℕ → ℕ
saturating_sub a b = a - b

abbrev pub Duration : Type 0
Duration = ℕ

abbrev pub from_secs : ℕ → Duration
from_secs s = s * 1_000_000_000

-- `d.as_millis() as u64`.
unfoldable pub as_millis : Duration → ℕ
as_millis d = d / 1_000_000 % u64_mod
