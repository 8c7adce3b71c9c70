-- ===== src/Prelude/Words.antt =====
-- Go's 64-bit arithmetic on bit patterns: a `uint64` is a number below 2 ^ 64, and an `int64` is
-- the pattern that the conversion `uint64(n)` gives, so that both types share these operations.
use Prim.Native.Nat.{ℕ, ◌+◌, ◌-◌, ◌*◌, ◌/◌, ◌%◌, ◌^◌, ◌≤◌, ◌<◌}
use mathlib.Core.Path.{◌≡◌}
use mathlib.Core.Bool.{Bool, true, ◌&&◌}
use native.Mathlib.Nat.{mod-eq_of_lt}
use native.Mathlib.Omega.{arith}
use aether_agent.Prelude.Tests.{ltb, lt→ltb, if◌then◌else◌}

abbrev pub u64_mod : ℕ
u64_mod = 2 ^ 64

abbrev pub i64_max : ℕ
i64_max = 2 ^ 63

unfoldable pub add64 : ℕ → ℕ → ℕ
add64 a b = (a + b) % u64_mod

unfoldable pub sub64 : ℕ → ℕ → ℕ
sub64 a b = (a + u64_mod - b) % u64_mod

unfoldable pub mul64 : ℕ → ℕ → ℕ
mul64 a b = (a * b) % u64_mod

-- `n > 0` for the int64 that the pattern stands for.
unfoldable pub is_positive64 : ℕ → Bool
is_positive64 n = ltb 0 n && ltb n i64_max

-- `a < b` for the int64s that the patterns stand for.
unfoldable pub lt64 : ℕ → ℕ → Bool
lt64 a b = ltb ((a + i64_max) % u64_mod) ((b + i64_max) % u64_mod)

-- The absolute value of an int64, and its negation.
abbrev abs64 : ℕ → ℕ
abs64 a = if ltb a i64_max then a else u64_mod - a

abbrev neg64 : ℕ → ℕ
neg64 a = (u64_mod - a) % u64_mod

-- `a / b` and `a % b` of int64s round towards 0; the sign of `a % b` is that of `a`.
unfoldable pub quot64 : ℕ → ℕ → ℕ
quot64 a b =
    let q = abs64 a / abs64 b in
    if ltb a i64_max
    then (if ltb b i64_max then q else neg64 q)
    else (if ltb b i64_max then neg64 q else q)

unfoldable pub rem64 : ℕ → ℕ → ℕ
rem64 a b = let r = abs64 a % abs64 b in if ltb a i64_max then r else neg64 r

pub lt64_small : (a b : ℕ) → a < i64_max → b < i64_max → lt64 a b ≡ ltb a b
unfolding lt64
lt64_small a b h k = ground arith

-- A pattern from 2 ^ 63 on is a negative int64.
pub lt64_negative : (a b : ℕ) → i64_max ≤ a → a < u64_mod → b < i64_max → lt64 a b ≡ true
unfolding lt64
lt64_negative a b h k l = ground arith

pub quot64_small : (a b : ℕ) → a < i64_max → b < i64_max → quot64 a b ≡ a / b
unfolding quot64
quot64_small a b h k = rw (lt→ltb a i64_max h, lt→ltb b i64_max k)

pub rem64_small : (a b : ℕ) → a < i64_max → b < i64_max → rem64 a b ≡ a % b
unfolding rem64
rem64_small a b h k = rw (lt→ltb a i64_max h, lt→ltb b i64_max k)

pub mul64_small : (a b : ℕ) → a * b < u64_mod → mul64 a b ≡ a * b
unfolding mul64
mul64_small a b h = mod-eq_of_lt h

pub add64_small : (a b : ℕ) → a + b < u64_mod → add64 a b ≡ a + b
unfolding add64
add64_small a b h = omega arith

pub sub64_small : (a b : ℕ) → b ≤ a → a < u64_mod → sub64 a b ≡ a - b
unfolding sub64
sub64_small a b h k = omega arith

pub add64_assoc : (a b c : ℕ) → add64 (add64 a b) c ≡ add64 a (b + c)
unfolding add64
add64_assoc a b c = omega arith

pub is_positive64_small : (n : ℕ) → n < i64_max → is_positive64 n ≡ ltb 0 n
unfolding is_positive64
is_positive64_small n h = ground arith
