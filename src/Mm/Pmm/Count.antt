-- ===== src/Mm/Pmm/Count.antt =====
-- Counting the zeros of a table of digits.
use pepin_os.Base.{
  ℕ, zero, suc, ◌+◌, ◌-◌, ◌≤◌, ◌<◌, ◌≡◌, refl, ◌≢◌, ◌⊎◌, inl, inr, arith, ◌==◌, leb, if◌then◌else◌,
}

-- The number of indices below `n` at which `f` is 0.
pub zeros : (ℕ → ℕ) → ℕ → ℕ
zeros f zero = 0
zeros f (suc n) = (if f n == 0 then 1 else 0) + zeros f n

pub zeros-le : (f : ℕ → ℕ) (n : ℕ) → zeros f n ≤ n
unfolding zeros
zeros-le f zero = omega arith
zeros-le f (suc n) = ground (arith, zeros-le f n)

pub zeros_congr : (f g : ℕ → ℕ) (n : ℕ) → ((i : ℕ) → i < n → f i ≡ g i) → zeros f n ≡ zeros g n
unfolding zeros
zeros_congr f g zero same = refl
zeros_congr f g (suc n) same =
    rw (same n (omega arith), zeros_congr f g n (λ i h. same i (omega arith)))

-- Setting one zero takes one from the count.
pub zeros_set :
    (f g : ℕ → ℕ) (n i : ℕ)
    → f i ≡ 0
    → ((j : ℕ) → g j ≡ (if i == j then 1 else f j))
    → i < n
    → zeros f n ≡ suc (zeros g n)
unfolding zeros
zeros_set f g zero i free set lt = absurd (omega arith)
zeros_set f g (suc n) i free set lt = elim (split n) [
  | inl e ↦
      let same = zeros_congr f g n (λ j h. ground (arith, set j)) in ground (arith, set n, same)
  | inr below ↦ let rest = zeros_set f g n i free set (omega arith) in ground (arith, set n, rest)
]
  where
    split : (n : ℕ) → (i ≡ n) ⊎ (i ≢ n)
    split n = omega arith

-- No zero below `n`, and the count is 0; and the other way round.
pub zeros-eq-zero : (f : ℕ → ℕ) (n : ℕ) → ((i : ℕ) → i < n → f i ≢ 0) → zeros f n ≡ 0
unfolding zeros
zeros-eq-zero f zero none_free = refl
zeros-eq-zero f (suc n) none_free =
    ground (arith, none_free n, zeros-eq-zero f n (λ i h. none_free i (omega arith)))

pub ne-zero_of_zeros : (f : ℕ → ℕ) (n i : ℕ) → zeros f n ≡ 0 → i < n → f i ≢ 0
unfolding zeros
ne-zero_of_zeros f zero i e lt = absurd (omega arith)
ne-zero_of_zeros f (suc n) i e lt = grind (arith, ne-zero_of_zeros f n i)

-- A table that is 1 below `lo` and 0 from there on.
pub zeros-between :
    (f : ℕ → ℕ) (lo n : ℕ)
    → ((i : ℕ) → i < n → f i ≡ (if leb lo i then 0 else 1))
    → zeros f n ≡ n - lo
unfolding zeros
zeros-between f lo zero h = omega arith
zeros-between f lo (suc n) h = ground (arith, h n, zeros-between f lo n (λ i lt. h i (omega arith)))

-- With no zero below `m` there are at most the other places.
pub zeros_above : (f : ℕ → ℕ) (m n : ℕ) → ((j : ℕ) → j < m → f j ≢ 0) → zeros f n ≤ n - m
unfolding zeros
zeros_above f m zero none_free = omega arith
zeros_above f m (suc n) none_free = ground (arith, none_free n, zeros_above f m n none_free)
