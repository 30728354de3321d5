-- ===== src/Mm/Pmm/Bitmap.antt =====
-- The bitmap as a table with one digit for each page.
use pepin_os.Base.{ℕ, ◌/◌, ◌%◌, ◌^◌, ◌≤◌, ◌≡◌, arith, ◌==◌, if◌then◌else◌, shl32-one, pow-lt-u32}
use pepin_os.Base.Bits.{
  bit, bit-shr, bit-bit_or, bit-bit_and, bit-pow, bit-complement, bit-le_one, not32,
}
use pepin_os.Mm.Pmm.{Pmm, set_used, set_free, is_used}

-- Digit 1: the page is taken.
abbrev pub used : Pmm → ℕ → ℕ
used p i = bit (p.bitmap (i / 32)) (i % 32)

pub used-le_one : (p : Pmm) (i : ℕ) → used p i ≤ 1
used-le_one p i = bit-le_one (p.bitmap (i / 32)) (i % 32)

pub is_used_lem : (i : ℕ) (p : Pmm) → is_used i p ≡ used p i
unfolding is_used
is_used_lem i p = bit-shr (p.bitmap (i / 32)) (i % 32)

same_cell : (i j : ℕ) → i / 32 ≡ j / 32 → i % 32 ≡ j % 32 → i ≡ j
same_cell i j p q = omega arith

pub used-set_used :
    (i : ℕ) (p : Pmm) (j : ℕ) → used (set_used i p) j ≡ (if i == j then 1 else used p j)
unfolding set_used
used-set_used i p j = ground (
  arith,
  shl32-one (i % 32),
  bit-bit_or (p.bitmap (i / 32)) (2 ^ (i % 32)) (j % 32),
  bit-pow (i % 32) (j % 32),
  bit-le_one (p.bitmap (i / 32)) (j % 32),
)

pub used-set_free :
    (i : ℕ) (p : Pmm) (j : ℕ) → used (set_free i p) j ≡ (if i == j then 0 else used p j)
unfolding set_free
used-set_free i p j = ground (
  arith,
  shl32-one (i % 32),
  pow-lt-u32 (i % 32),
  bit-bit_and (p.bitmap (i / 32)) (not32 (2 ^ (i % 32))) (j % 32),
  bit-complement 32 (2 ^ (i % 32)) (j % 32),
  bit-pow (i % 32) (j % 32),
  bit-le_one (p.bitmap (i / 32)) (j % 32),
)
