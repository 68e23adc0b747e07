-- ===== src/Base/Words.antt =====
-- Go's fixed-width integers as bit patterns below 2 ^ 64, with the wrap-around written out.
use Prim.Native.Nat.{ℕ, ◌+◌, ◌-◌, ◌%◌, ◌^◌, ◌<◌}
use mathlib.Core.Path.{◌≡◌}
use mathlib.Core.Bool.{Bool}
use native.Mathlib.Omega.{arith}
use llm_openresty.Base.Tests.{ltb}

abbrev pub word_mod : ℕ
word_mod = 2 ^ 64

-- int64 and uint64 `a + b` and `a - b`.
unfoldable pub add64 : ℕ → ℕ → ℕ
add64 a b = (a + b) % word_mod

unfoldable pub sub64 : ℕ → ℕ → ℕ
sub64 a b = (a + (word_mod - b % word_mod)) % word_mod

-- int64 `a < b`: the sign bit is flipped, and the patterns are compared.
unfoldable pub slt64 : ℕ → ℕ → Bool
slt64 a b = ltb ((a + 2 ^ 63) % word_mod) ((b + 2 ^ 63) % word_mod)

-- What was added can be read back as a difference, whatever wrapped around.
pub add64-sub64 : (a b : ℕ) → b < word_mod → add64 a (sub64 b a) ≡ b
unfolding add64 sub64
add64-sub64 a b h = omega arith

pub add64_assoc : (a b c : ℕ) → add64 (add64 a b) c ≡ add64 a (add64 b c)
unfolding add64
add64_assoc a b c = omega arith

pub add64_comm : (a b : ℕ) → add64 a b ≡ add64 b a
unfolding add64
add64_comm a b = omega arith

pub add64-lt : (a b : ℕ) → add64 a b < word_mod
unfolding add64
add64-lt a b = omega arith

pub add64_small : (a b : ℕ) → a + b < word_mod → add64 a b ≡ a + b
unfolding add64
add64_small a b h = omega arith
