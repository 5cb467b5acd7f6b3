-- ===== src/Prelude/Word.antt =====
-- The fixed-width words of C as native numbers: casts, complements, shifts, flag tests.
use Prim.Native.Nat.{ℕ, ◌-◌, ◌*◌, ◌/◌, ◌%◌, ◌^◌, bit_and}
use mathlib.Core.Bool.{Bool, not}
use garmin_gpsmap_emu.Prelude.Tests.{◌==◌}

abbrev pub u8 : ℕ → ℕ
u8 n = n % 2 ^ 8

abbrev pub u32 : ℕ → ℕ
u32 n = n % 2 ^ 32

abbrev pub u64 : ℕ → ℕ
u64 n = n % 2 ^ 64

-- `~x` of a `uint32_t` and of a `uint64_t`.
abbrev pub not32 : ℕ → ℕ
not32 x = 2 ^ 32 - 1 - x % 2 ^ 32

abbrev pub not64 : ℕ → ℕ
not64 x = 2 ^ 64 - 1 - x % 2 ^ 64

-- `x << k` before the cast to the type of the result, and `x >> k`.
abbrev pub shl : ℕ → ℕ → ℕ
shl x k = x * 2 ^ k

abbrev pub shr : ℕ → ℕ → ℕ
shr x k = x / 2 ^ k

-- `x != 0` as a condition.
abbrev pub nonzero : ℕ → Bool
nonzero x = not (x == 0)

-- `x & m` as a condition.
abbrev pub has : ℕ → ℕ → Bool
has x m = nonzero (bit_and x m)
