-- ===== src/Base/Bits.antt =====
-- The binary digits of a word, and what `&`, `|`, `~`, `<<` and `>>` do to them.
mod Step
pub mod Masks
use Step.{bit_or_step, bit_and_step}
use Prim.Native.Nat.{
  ℕ, zero, suc, ◌+◌, ◌-◌, ◌*◌, ◌/◌, ◌%◌, ◌^◌, ◌≤◌, ◌<◌, min, max, bit_and, bit_or, bit_and-bitwise,
}
use mathlib.Core.Path.{◌≡◌, refl, sym, ◌∙◌}
use native.Mathlib.Nat.{pow-suc, pow-succ', one-le-pow, div-div-eq-div-mul}
use native.Mathlib.Omega.{arith}
use pepin_os.Base.Tests.{◌==◌, if◌then◌else◌}

-- Digit `k` of `w`, which is `(w >> k) & 1`.
unfoldable pub bit : ℕ → ℕ → ℕ
bit w zero = w % 2
bit w (suc k) = bit (w / 2) k

-- `~x` on 32 bits.
abbrev pub not32 : ℕ → ℕ
not32 x = 2 ^ 32 - 1 - x

pub bit-le_one : (w k : ℕ) → bit w k ≤ 1
unfolding bit
bit-le_one w zero = omega arith
bit-le_one w (suc k) = bit-le_one (w / 2) k

pub bit-zero : (k : ℕ) → bit 0 k ≡ 0
unfolding bit
bit-zero zero = refl
bit-zero (suc k) = bit-zero k

pub bit-bit_or : (a b k : ℕ) → bit (bit_or a b) k ≡ max (bit a k) (bit b k)
unfolding bit
bit-bit_or a b zero = omega (arith, bit_or_step a b)
bit-bit_or a b (suc k) =
    let half : bit_or a b / 2 ≡ bit_or (a / 2) (b / 2) = omega (arith, bit_or_step a b) in
    rw half (bit-bit_or (a / 2) (b / 2) k)

pub bit-bit_and : (a b k : ℕ) → bit (bit_and a b) k ≡ min (bit a k) (bit b k)
unfolding bit
bit-bit_and a b zero = omega (arith, bit_and_step a b)
bit-bit_and a b (suc k) =
    let half : bit_and a b / 2 ≡ bit_and (a / 2) (b / 2) = omega (arith, bit_and_step a b) in
    rw half (bit-bit_and (a / 2) (b / 2) k)

pub bit-pow : (j k : ℕ) → bit (2 ^ j) k ≡ (if j == k then 1 else 0)
unfolding bit
bit-pow zero zero = refl
bit-pow zero (suc k) = bit-zero k ∙ ground arith
bit-pow (suc j) zero = ground (arith, pow-suc 2 j)
bit-pow (suc j) (suc k) =
    let half : 2 ^ suc j / 2 ≡ 2 ^ j = omega (arith, pow-suc 2 j) in
    rw half (bit-pow j k ∙ ground arith)

-- Complement within `n` digits.
pub bit-complement : (n x k : ℕ) → x < 2 ^ n → k < n → bit (2 ^ n - 1 - x) k ≡ 1 - bit x k
unfolding bit
bit-complement zero x k h lt = absurd (omega arith)
bit-complement (suc n) x zero h lt = omega (arith, pow-suc 2 n, one-le-pow n 2)
bit-complement (suc n) x (suc k) h lt =
    let half : (2 ^ suc n - 1 - x) / 2 ≡ 2 ^ n - 1 - x / 2 =
      omega (arith, pow-suc 2 n, one-le-pow n 2) in
    rw half (bit-complement n (x / 2) k (omega (arith, pow-suc 2 n)) (omega arith))

-- A word is determined by its digits.
pub eq_of_bit : (n a b : ℕ) → a < 2 ^ n → b < 2 ^ n → ((k : ℕ) → k < n → bit a k ≡ bit b k) → a ≡ b
unfolding bit
eq_of_bit zero a b ha hb same = omega arith
eq_of_bit (suc n) a b ha hb same =
    let low : a % 2 ≡ b % 2 = same 0 (omega arith) in
    let high : a / 2 ≡ b / 2 =
      eq_of_bit n (a / 2) (b / 2) (omega (arith, pow-suc 2 n)) (omega (arith, pow-suc 2 n))
        (λ k h. same (suc k) (omega arith)) in
    omega arith

-- Neither operation needs more digits than its operands have.
pub bit_or-lt : (n a b : ℕ) → a < 2 ^ n → b < 2 ^ n → bit_or a b < 2 ^ n
bit_or-lt zero a b ha hb =
    let ea : a ≡ 0 = omega arith in let eb : b ≡ 0 = omega arith in rw (ea, eb) (omega arith)
bit_or-lt (suc n) a b ha hb = omega (
  arith,
  pow-suc 2 n,
  bit_or_step a b,
  bit_or-lt n (a / 2) (b / 2) (omega (arith, pow-suc 2 n)) (omega (arith, pow-suc 2 n)),
)

bit_and-le_fuel : (n a b : ℕ) → a ≤ n → (bit_and a b ≤ a) × (bit_and a b ≤ b)
bit_and-le_fuel n zero b h = let e : bit_and 0 b ≡ 0 = bit_and-bitwise 0 b in rw e (omega arith)
bit_and-le_fuel zero (suc a) b h = absurd (omega arith)
bit_and-le_fuel (suc n) (suc a) b h = (
  omega (arith, bit_and_step (suc a) b, (bit_and-le_fuel n (suc a / 2) (b / 2) (omega arith)).0),
  omega (arith, bit_and_step (suc a) b, (bit_and-le_fuel n (suc a / 2) (b / 2) (omega arith)).1),
)

pub bit_and-le : (a b : ℕ) → (bit_and a b ≤ a) × (bit_and a b ≤ b)
bit_and-le a b = bit_and-le_fuel a a b (omega arith)

pub div-two-pow-suc : (w k : ℕ) → w / 2 ^ suc k ≡ w / 2 / 2 ^ k
div-two-pow-suc w k = rw (pow-succ' 2 k) (sym (div-div-eq-div-mul w 2 (2 ^ k)))

-- `(w >> k) & 1` is digit `k`.
pub bit-shr : (w k : ℕ) → bit_and (w / 2 ^ k) 1 ≡ bit w k
unfolding bit
bit-shr w zero = omega (arith, bit_and_step (w / 1) 1, (bit_and-le (w / 1 / 2) 0).1)
bit-shr w (suc k) = rw (div-two-pow-suc w k) (bit-shr (w / 2) k)
