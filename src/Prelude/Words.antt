-- ===== src/Prelude/Words.antt =====
-- An int64 as its bit pattern, a number below 2 ^ 64.
use Prim.Native.Nat.{ℕ, ◌+◌, ◌-◌, ◌*◌, ◌%◌, ◌^◌}
use mathlib.Core.Bool.{Bool}
use music_online_go.Prelude.Tests.{ltb}

abbrev pub word : ℕ
word = 2 ^ 64

-- `a + b`, `a - b` and `a * b`, which wrap around
abbrev pub add64 : ℕ → ℕ → ℕ
add64 a b = (a + b) % word

abbrev pub sub64 : ℕ → ℕ → ℕ
sub64 a b = (a + word - b) % word

abbrev pub mul64 : ℕ → ℕ → ℕ
mul64 a b = a * b % word

-- `a < b` of the signed numbers
abbrev pub lt64 : ℕ → ℕ → Bool
lt64 a b = ltb ((a + 2 ^ 63) % word) ((b + 2 ^ 63) % word)
