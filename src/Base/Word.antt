-- ===== src/Base/Word.antt =====
-- 32-bit unsigned arithmetic as C performs it: every result is reduced modulo 2^32.
use Prim.Native.Nat.{ℕ, ◌+◌, ◌-◌, ◌*◌, ◌%◌, ◌^◌, ◌<◌}
use mathlib.Core.Path.{◌≡◌}
use native.Mathlib.Nat.{pow-le-pow_right}
use native.Mathlib.Omega.{arith}

abbrev pub u32_mod : ℕ
u32_mod = 2 ^ 32

abbrev pub add32 : ℕ → ℕ → ℕ
add32 a b = (a + b) % u32_mod

abbrev pub sub32 : ℕ → ℕ → ℕ
sub32 a b = (a + u32_mod - b) % u32_mod

abbrev pub mul32 : ℕ → ℕ → ℕ
mul32 a b = (a * b) % u32_mod

-- `x << k`
abbrev pub shl32 : ℕ → ℕ → ℕ
shl32 x k = x * 2 ^ k % u32_mod

pub pow-lt-u32 : (k : ℕ) → k < 32 → 2 ^ k < u32_mod
pow-lt-u32 k h =
    let le = pow-le-pow_right {n = 2} (omega arith) {i = k} {j = 31} (omega arith) in omega arith

-- `1u << k`
pub shl32-one : (k : ℕ) → k < 32 → shl32 1 k ≡ 2 ^ k
shl32-one k h = omega (arith, pow-lt-u32 k h)
