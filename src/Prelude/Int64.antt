-- ===== src/Prelude/Int64.antt =====
-- Go's `int64`, as its bit pattern: a number below 2 ^ 64, whose upper half stands for the negative
-- numbers. Arithmetic wraps, and the comparisons are signed.
use Prim.Native.Nat.{ℕ, ◌+◌, ◌-◌, ◌*◌, ◌%◌, ◌^◌}
use mathlib.Core.Bool.{Bool}
use self_healing_distributed.Prelude.Tests.{ltb, leb}

abbrev pub two64 : ℕ
two64 = 2 ^ 64

abbrev pub two63 : ℕ
two63 = 2 ^ 63

abbrev pub add64 : ℕ → ℕ → ℕ
add64 a b = (a + b) % two64

abbrev pub sub64 : ℕ → ℕ → ℕ
sub64 a b = (a + two64 - b) % two64

abbrev pub mul64 : ℕ → ℕ → ℕ
mul64 a b = (a * b) % two64

-- Signed `<` and `<=`: the order of the patterns, with the sign bit flipped.
abbrev pub slt : ℕ → ℕ → Bool
slt a b = ltb ((a + two63) % two64) ((b + two63) % two64)

abbrev pub sle : ℕ → ℕ → Bool
sle a b = leb ((a + two63) % two64) ((b + two63) % two64)
