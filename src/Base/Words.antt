-- ===== src/Base/Words.antt =====
-- 32-bit machine words as native numbers. A C `int` is its two's complement bit pattern, so that a
-- conversion between `int` and `UINT` is the identity.
use Prim.Native.Nat.{ℕ, ◌+◌, ◌-◌, ◌%◌, ◌^◌, ◌≤◌, ◌<◌}
use mathlib.Core.Path.{◌≡◌}
use mathlib.Core.Bool.{Bool, false}
use native.Mathlib.Omega.{arith}
use si_daq_api.Base.Tests.{ltb, leb}

-- a + b, which wraps.
unfoldable pub add32 : ℕ → ℕ → ℕ
add32 a b = (a + b) % 2 ^ 32

-- a - b, which wraps.
unfoldable pub sub32 : ℕ → ℕ → ℕ
sub32 a b = (a + 2 ^ 32 - b) % 2 ^ 32

-- The sign of an `int`.
unfoldable pub is_neg : ℕ → Bool
is_neg w = leb (2 ^ 31) w

-- a < b, as `int`s.
unfoldable pub slt : ℕ → ℕ → Bool
slt a b = ltb ((a + 2 ^ 31) % 2 ^ 32) ((b + 2 ^ 31) % 2 ^ 32)

pub add32_exact : (a b : ℕ) → a + b < 2 ^ 32 → add32 a b ≡ a + b
unfolding add32
add32_exact a b h = omega arith

pub sub32_exact : (a b : ℕ) → a < 2 ^ 32 → b ≤ a → sub32 a b ≡ a - b
unfolding sub32
sub32_exact a b h k = omega arith

pub is_neg_iff : (w : ℕ) → is_neg w ≡ false → w < 2 ^ 31
unfolding is_neg
is_neg_iff w h = ground arith

pub is_neg-false : (w : ℕ) → w < 2 ^ 31 → is_neg w ≡ false
unfolding is_neg
is_neg-false w h = ground arith

pub slt-ltb : (a b : ℕ) → a < 2 ^ 31 → b < 2 ^ 31 → slt a b ≡ ltb a b
unfolding slt
slt-ltb a b h k = ground arith
