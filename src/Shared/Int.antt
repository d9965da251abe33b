-- ===== src/Shared/Int.antt =====
-- Go's `int` on a 64-bit machine, by its bit pattern: a number below 2 ^ 64, in two's complement.
use Prim.Native.Nat.{ℕ, ◌+◌, ◌-◌, ◌%◌, ◌^◌, ◌≤◌, ◌<◌}
use mathlib.Core.Bool.{Bool}
use package.kubedrill.Shared.Tests.{ltb}

abbrev pub Int64 : Type 0
Int64 = ℕ

abbrev pub int_mod : ℕ
int_mod = 2 ^ 64

abbrev pub max_int : ℕ
max_int = 2 ^ 63 - 1

abbrev pub add : Int64 → Int64 → Int64
add a b = (a + b) % int_mod

abbrev pub sub : Int64 → Int64 → Int64
sub a b = (a + int_mod - b) % int_mod

-- `a < 0`
abbrev pub is_neg : Int64 → Bool
is_neg a = ltb max_int a

-- Signed comparison: adding 2 ^ 63 orders the patterns as the numbers that they stand for.
abbrev pub int_lt : Int64 → Int64 → Bool
int_lt a b = ltb ((a + 2 ^ 63) % int_mod) ((b + 2 ^ 63) % int_mod)

-- Patterns that stand for numbers from 0 on.
abbrev pub IsNonneg : Int64 → Type 0
IsNonneg a = a ≤ max_int

abbrev pub IsInt : Int64 → Type 0
IsInt a = a < int_mod
