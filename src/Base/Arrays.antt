-- ===== src/Base/Arrays.antt =====
-- C arrays. `update` writes one cell of an array that is a function of its index; lists are
-- measured and read by native numbers.
use Prim.Native.Nat.{ℕ, zero, suc, ◌+◌, ◌-◌, compare, Ordering}
use mathlib.Core.Path.{◌≡◌, ◌∙◌}
use mathlib.Core.Logic.{inl, inr}
use mathlib.Core.Bool.{◌&&◌}
use pepin_os.Base.Tests.{ltb, leb, ◌==◌, Bool-cases, if◌then◌else◌}
use mathlib.Core.List.{List, [], ◌∷◌, ◌++◌}
use mathlib.Core.Option.{Option, none, some}
use native.Mathlib.Omega.{arith}

module _ {ℓ} {A : Type ℓ} where
  -- `f[i] = v`
  abbrev pub update : (ℕ → A) → ℕ → A → ℕ → A
  update f i v j = elim (compare i j) [ Ordering.eq ↦ v | _ ↦ f j ]

  abbrev pub length : List A → ℕ
  length [] = 0
  length (x ∷ xs) = suc (length xs)

  abbrev pub get_elem? : List A → ℕ → Option A
  get_elem? [] i = none
  get_elem? (x ∷ xs) zero = some x
  get_elem? (x ∷ xs) (suc i) = get_elem? xs i

  pub length-append : (xs ys : List A) → length (xs ++ ys) ≡ length xs + length ys
  length-append [] ys = omega arith
  length-append (x ∷ xs) ys = omega (arith, length-append xs ys)

-- `for (k = i; k < i + n; k++) body`
abbrev pub for_range {ℓ} : {S : Type ℓ} → ℕ → ℕ → (ℕ → S → S) → S → S
for_range zero i body s = s
for_range (suc n) i body s = for_range n (suc i) body (body i s)

-- `for (k = i; k < i + n; k++) t[k] = f(k);`
pub for_range-update {ℓ} :
    {A : Type ℓ} (n i : ℕ) (f t : ℕ → A) (j : ℕ)
    → for_range n i (λ k r. update r k (f k)) t j ≡ (if leb i j && ltb j (i + n) then f j else t j)
for_range-update zero i f t j = ground arith
for_range-update (suc n) i f t j = ground (arith, for_range-update n (suc i) f (update t i (f i)) j)

write_at {ℓ} :
    {A : Type ℓ} (n i at a : ℕ) (f t : ℕ → A)
    → (if leb (at + suc i) a && ltb a (at + suc i + n)
        then f (a - at)
        else update t (at + i) (f i) a)
      ≡ (if leb (at + i) a && ltb a (at + i + suc n) then f (a - at) else t a)
write_at n i at a f t = elim (Bool-cases (at + i == a)) [
  | inl here ↦ let place : a - at ≡ i = ground arith in ground (arith, place)
  | inr elsewhere ↦ ground arith
]

-- `for (k = i; k < i + n; k++) t[at + k] = f(k);`
pub for_range-update_at {ℓ} :
    {A : Type ℓ} (n i at : ℕ) (f t : ℕ → A) (a : ℕ)
    → for_range n i (λ k r. update r (at + k) (f k)) t a
      ≡ (if leb (at + i) a && ltb a (at + i + n) then f (a - at) else t a)
for_range-update_at zero i at f t a = ground arith
for_range-update_at (suc n) i at f t a =
    for_range-update_at n (suc i) at f (update t (at + i) (f i)) a ∙ write_at n i at a f t

pub update_self {ℓ} : {A : Type ℓ} (f : ℕ → A) (i : ℕ) (v : A) → update f i v i ≡ v
update_self f i v = ground arith
