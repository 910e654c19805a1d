-- ===== src/Base/Word.antt =====
-- std::uint64_t arithmetic, its wrap-around written out, and when it does not wrap. std::size_t is
-- taken to be 64 bits wide, as on the platforms that the library builds for.
use Prim.Native.Nat.{ℕ, ◌+◌, ◌-◌, ◌*◌, ◌%◌, ◌^◌, ◌≤◌, ◌<◌}
use mathlib.Core.Path.{◌≡◌}
use native.Mathlib.Nat.{mod-eq_of_lt}
use native.Mathlib.Omega.{arith}

-- std::numeric_limits<std::uint64_t>::max()
abbrev pub u64_max : ℕ
u64_max = 2 ^ 64 - 1

unfoldable pub add64 : ℕ → ℕ → ℕ
add64 a b = (a + b) % 2 ^ 64

unfoldable pub sub64 : ℕ → ℕ → ℕ
sub64 a b = (a + 2 ^ 64 - b) % 2 ^ 64

unfoldable pub mul64 : ℕ → ℕ → ℕ
mul64 a b = a * b % 2 ^ 64

pub add64_lem : (a b : ℕ) → a + b < 2 ^ 64 → add64 a b ≡ a + b
unfolding add64
add64_lem a b h = omega arith

pub sub64_lem : (a b : ℕ) → b ≤ a → a < 2 ^ 64 → sub64 a b ≡ a - b
unfolding sub64
sub64_lem a b h k = omega arith

pub mul64_lem : (a b : ℕ) → a * b < 2 ^ 64 → mul64 a b ≡ a * b
unfolding mul64
mul64_lem a b h = mod-eq_of_lt h

pub add64-lt : (a b : ℕ) → add64 a b < 2 ^ 64
unfolding add64
add64-lt a b = omega arith

pub mul64-lt : (a b : ℕ) → mul64 a b < 2 ^ 64
unfolding mul64
mul64-lt a b = omega arith

pub ruleset no_wrap = (arith, add64_lem, sub64_lem, mul64_lem)
