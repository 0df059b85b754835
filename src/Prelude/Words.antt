-- ===== src/Prelude/Words.antt =====
-- Bytes, machine words and flags.
use Prim.Native.Nat.{ℕ, ◌+◌, ◌-◌, ◌/◌, ◌%◌, ◌^◌}
use mathlib.Core.Bool.{Bool}
use mathlib.Core.List.{List}
use helpz.Prelude.Tests.{◌==◌, if◌then◌else◌}

-- A `QByteArray`, a `char*` with its length, the contents of a `QBuffer`.
abbrev pub Bytes : Type 0
Bytes = List ℕ

-- `uint32_t` sum and difference.
abbrev pub add32 : ℕ → ℕ → ℕ
add32 a b = (a + b) % 2 ^ 32

abbrev pub sub32 : ℕ → ℕ → ℕ
sub32 a b = (a + 2 ^ 32 - b) % 2 ^ 32

-- `flags & bit` and `flags | bit`, for a bit that is a power of two.
abbrev pub has_flag : ℕ → ℕ → Bool
has_flag bit flags = flags / bit % 2 == 1

abbrev pub with_flag : ℕ → ℕ → ℕ
with_flag bit flags = if has_flag bit flags then flags else flags + bit
