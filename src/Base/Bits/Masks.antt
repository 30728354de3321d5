-- ===== src/Base/Bits/Masks.antt =====
-- Masks and packed fields as arithmetic, at every width.
use Prim.Native.Nat.{ℕ, zero, suc, ◌+◌, ◌-◌, ◌*◌, ◌/◌, ◌%◌, ◌^◌, ◌≤◌, ◌<◌, bit_and, bit_or}
use mathlib.Core.Path.{◌≡◌, sym, ap, ◌∙◌}
use native.Mathlib.Nat.{pow-suc, one-le-pow, div-add-mod'}
use native.Mathlib.Omega.{arith}
use pepin_os.Base.Tests.{◌==◌}
use pepin_os.Base.Bits.{bit, bit-shr, bit-le_one, bit_and-le, div-two-pow-suc}
use pepin_os.Base.Bits.Step.{bit_or_step, bit_and_step}

times_pow : (q k : ℕ) → q * 2 ^ suc k ≡ 2 * (q * 2 ^ k)
times_pow q k = omega (arith, ap (λ (t : ℕ). q * t) (pow-suc 2 k))

zero_field_fuel : (n a : ℕ) → a ≤ n → bit_or a 0 ≡ a
zero_field_fuel zero a h = let e : a ≡ 0 = omega arith in rw e
zero_field_fuel (suc n) a h =
    omega (arith, bit_or_step a 0, zero_field_fuel n (a / 2) (omega arith))

bit_or_comm_fuel : (n a b : ℕ) → a ≤ n → b ≤ n → bit_or a b ≡ bit_or b a
bit_or_comm_fuel zero a b ha hb =
    let e : a ≡ b = omega arith in ap (bit_or a) (sym e) ∙ ap (λ (x : ℕ). bit_or x a) e
bit_or_comm_fuel (suc n) a b ha hb = omega (
  arith,
  bit_or_step a b,
  bit_or_step b a,
  bit_or_comm_fuel n (a / 2) (b / 2) (omega arith) (omega arith),
)

pub bit_or_comm : (a b : ℕ) → bit_or a b ≡ bit_or b a
bit_or_comm a b = bit_or_comm_fuel (a + b) a b (omega arith) (omega arith)

-- `(q << k) | r` is a sum when `r` fits in `k` digits.
pub bit_or_field : (k q r : ℕ) → r < 2 ^ k → bit_or (q * 2 ^ k) r ≡ q * 2 ^ k + r
bit_or_field zero q r h =
    let e : r ≡ 0 = omega arith in
    rw e (omega (arith, zero_field_fuel (q * 1) (q * 1) (omega arith)))
bit_or_field (suc k) q r h = ground (
  arith,
  pow-suc 2 k,
  times_pow q k,
  bit_or_step (q * 2 ^ suc k) r,
  bit_or_field k q (r / 2) (omega (arith, pow-suc 2 k)),
)

-- `a & (2^k - 1)`
pub bit_and_low : (k a : ℕ) → bit_and a (2 ^ k - 1) ≡ a % 2 ^ k
bit_and_low zero a = omega (arith, (bit_and-le a 0).1)
bit_and_low (suc k) a = ground (
  arith,
  pow-suc 2 k,
  one-le-pow k 2,
  times_pow (a / 2 / 2 ^ k) k,
  div-two-pow-suc a k,
  div-add-mod' a (2 ^ suc k),
  div-add-mod' (a / 2) (2 ^ k),
  bit_and_step a (2 ^ suc k - 1),
  bit_and_low k (a / 2),
)

-- `a & (b << k)`
pub bit_and_shifted : (k a b : ℕ) → bit_and a (b * 2 ^ k) ≡ bit_and (a / 2 ^ k) b * 2 ^ k
bit_and_shifted zero a b =
    let e : b * 1 ≡ b = omega arith in let d : a / 1 ≡ a = omega arith in rw (e, d) (omega arith)
bit_and_shifted (suc k) a b = ground (
  arith,
  times_pow b k,
  times_pow (bit_and (a / 2 ^ suc k) b) k,
  div-two-pow-suc a k,
  bit_and_step a (b * 2 ^ suc k),
  bit_and_shifted k (a / 2) b,
)

-- `a & (1u << k)` tests digit `k`.
pub bit_and-pow : (k a : ℕ) → bit_and a (2 ^ k) ≡ bit a k * 2 ^ k
bit_and-pow k a =
    let one : 1 * 2 ^ k ≡ 2 ^ k = omega arith in
    let e = bit_and_shifted k a 1 in rw (one, bit-shr a k) at e

pub bit_and-pow_test : (k a : ℕ) → (bit_and a (2 ^ k) == 0) ≡ (bit a k == 0)
bit_and-pow_test k a = digit (bit a k) (bit-le_one a k)
  where
    digit : (d : ℕ) → d ≤ 1 → (bit_and a (2 ^ k) == 0) ≡ (bit a k == 0)
    digit d h = ground (arith, bit_and-pow k a, one-le-pow k 2, bit-le_one a k)

pub bit_or_aligned : (a : ℕ) (r : ℕ) → a % 4096 ≡ 0 → r < 4096 → bit_or a r ≡ a + r
bit_or_aligned a r h lt =
    let e : a / 4096 * 4096 ≡ a = omega arith in rw e at (bit_or_field 12 (a / 4096) r lt)

two_flags : (a : ℕ) → a % 4 ≡ 0 → bit_or (bit_or a 1) 2 ≡ a + 3
two_flags a h =
    let one : bit_or a 1 ≡ a + 1 =
      let e : a / 2 * 2 ≡ a = omega arith in rw e at (bit_or_field 1 (a / 2) 1 (omega arith)) in
    let half : (a + 1) / 2 ≡ a / 4 * 2 = omega arith in
    let low : bit_or ((a + 1) / 2) 1 ≡ a / 4 * 2 + 1 =
      rw half (bit_or_field 1 (a / 4) 1 (omega arith)) in
    rw one (omega (arith, bit_or_step (a + 1) 2, low))

-- `a | PAGE_PRESENT | PAGE_WRITE`
pub bit_or_present_write : (a : ℕ) → a % 4096 ≡ 0 → bit_or (bit_or a 1) 2 ≡ a + 3
bit_or_present_write a h = two_flags a (omega arith)

-- `a | PAGE_PRESENT | PAGE_WRITE | PAGE_USER`
pub bit_or_present_write_user : (a : ℕ) → a % 4096 ≡ 0 → bit_or (bit_or (bit_or a 1) 2) 4 ≡ a + 7
bit_or_present_write_user a h =
    let two = two_flags a (omega arith) in
    let half : (a + 3) / 2 ≡ a / 2 + 1 = omega arith in
    let one : bit_or (a / 2) 1 ≡ a / 2 + 1 =
      let e : a / 4 * 2 ≡ a / 2 = omega arith in rw e at (bit_or_field 1 (a / 4) 1 (omega arith)) in
    let low : bit_or ((a + 3) / 2) 2 ≡ a / 2 + 3 =
      rw (half, sym one) (two_flags (a / 2) (omega arith)) in
    rw two (omega (arith, bit_or_step (a + 3) 4, low))

-- `w & ~0xFFF`
pub bit_and_page : (w : ℕ) → w < 2 ^ 32 → bit_and w (2 ^ 32 - 1 - 0xFFF) ≡ w - w % 4096
bit_and_page w h = omega (arith, bit_and_shifted 12 w 0xF_FFFF, bit_and_low 20 (w / 4096))

-- `(w & PAGE_PRESENT) == 0`
pub present_bit : (w : ℕ) → bit_and w 1 ≡ w % 2
present_bit w = bit_and_low 1 w
