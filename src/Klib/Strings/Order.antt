-- ===== src/Klib/Strings/Order.antt =====
-- Comparing strings.
use pepin_os.Base.{
  ℕ, zero, suc, ◌-◌, ◌<◌, ◌≡◌, refl, ap, ◌⊎◌, inl, inr, arith, ◌==◌, ltb, true, false, some, List,
  [], ◌∷◌, length, Bool-cases,
}
use mathlib.Core.Path.{subst}
use pepin_os.Base.Int.{ℤ, pos, negsuc, sub_ℕ}
use pepin_os.Base.Memory.{Memory}
use pepin_os.Klib.Strings.{goes_on, kstrcmp}
use pepin_os.Klib.Strings.Text.{IsText, ends, goes}

-- The order of a dictionary.
pub data Before : List ℕ → List ℕ → Type 0 where
  shorter : (d : ℕ) (ds : List ℕ) → Before [] (d ∷ ds)
  less : (c d : ℕ) (cs ds : List ℕ) → c < d → Before (c ∷ cs) (d ∷ ds)
  later : (c : ℕ) (cs ds : List ℕ) → Before cs ds → Before (c ∷ cs) (c ∷ ds)

-- The sign of the result tells how the strings are ordered.
pub data Compares (cs ds : List ℕ) : ℤ → Type 0 where
  equal : cs ≡ ds → Compares cs ds (pos 0)
  smaller : (n : ℕ) → Before cs ds → Compares cs ds (negsuc n)
  greater : (n : ℕ) → Before ds cs → Compares cs ds (pos (suc n))

pub later_Compares :
    (c : ℕ) (cs ds : List ℕ) (z : ℤ) → Compares cs ds z → Compares (c ∷ cs) (c ∷ ds) z
later_Compares c cs ds _ (equal e) = equal (ap (λ (xs : List ℕ). c ∷ xs) e)
later_Compares c cs ds _ (smaller n b) = smaller n (later c cs ds b)
later_Compares c cs ds _ (greater n b) = greater n (later c ds cs b)

pub sub_same : (b : ℕ) → sub_ℕ b b ≡ pos 0
sub_same b = ground arith

pub sub_less : (a b : ℕ) → a < b → (n : ℕ) × (sub_ℕ a b ≡ negsuc n)
sub_less a b h = (b - a - 1, ground (arith, h))

pub sub_greater : (a b : ℕ) → b < a → (n : ℕ) × (sub_ℕ a b ≡ pos (suc n))
sub_greater a b h = (a - b - 1, ground (arith, h))

-- What `kstrcmp` ended with.
pub record Compared (fuel s t : ℕ) (cs ds : List ℕ) (m : Memory) : Type 0 where
  pub result : ℤ
  pub ended : kstrcmp fuel s t m ≡ some result
  pub right : Compares cs ds result

-- Strings that differ in the first byte.
differ :
    (fuel s t a b : ℕ) (cs ds : List ℕ) (m : Memory)
    → m s ≡ a
    → m t ≡ b
    → goes_on s t m ≡ false
    → ((a < b) × Before cs ds) ⊎ (((b < a) × Before ds cs) ⊎ ((a ≡ b) × (cs ≡ ds)))
    → Compared (suc fuel) s t cs ds m
unfolding kstrcmp
differ fuel s t a b cs ds m ma mb stop how = elim how [
  | inl (lt, before) ↦
      let (n, e) = sub_less a b lt in
      record { result = negsuc n; ended = rw (stop, ma, mb, e) refl; right = smaller n before }
  | inr (inl (gt, before)) ↦
      let (n, e) = sub_greater a b gt in
      record { result = pos (suc n); ended = rw (stop, ma, mb, e) refl; right = greater n before }
  | inr (inr (e, same)) ↦ record {
    result = pos 0;
    ended = rw (stop, ma, mb, e) (ap some (sub_same b));
    right = equal same;
  }
]

-- Strings that agree in it.
agree :
    (fuel s t c d : ℕ) (cs ds : List ℕ) (m : Memory)
    → c ≡ d
    → goes_on s t m ≡ true
    → Compared fuel (suc s) (suc t) cs ds m
    → Compared (suc fuel) s t (c ∷ cs) (d ∷ ds) m
unfolding kstrcmp
agree fuel s t c d cs ds m e more rest = record {
  result = rest.result;
  ended = rw more rest.ended;
  right =
      subst (λ (x : ℕ). Compares (c ∷ cs) (x ∷ ds) rest.result) e
        (later_Compares c cs ds rest.result rest.right);
}

-- With more fuel than one of the strings has bytes, `kstrcmp` gives a number whose sign is the order of
-- the strings in a dictionary, and 0 exactly if they are equal.
pub kstrcmp_lem :
    (fuel s t : ℕ) (cs ds : List ℕ) (m : Memory)
    → IsText m s cs
    → IsText m t ds
    → length cs < fuel
    → Compared fuel s t cs ds m
kstrcmp_lem zero s t cs ds m p q h = elim h [ ]
kstrcmp_lem (suc fuel) s t [] [] m (ends _ z) (ends _ w) h =
    differ fuel s t 0 0 [] [] m z w (ground (arith, z)) (inr (inr (refl, refl)))
kstrcmp_lem (suc fuel) s t [] (d ∷ ds) m (ends _ z) (goes _ _ md nd q) h =
    differ fuel s t 0 d [] (d ∷ ds) m z md (ground (arith, z))
      (inl (ground (arith, nd), shorter d ds))
kstrcmp_lem (suc fuel) s t (c ∷ cs) [] m (goes _ _ mc nc p) (ends _ w) h =
    differ fuel s t c 0 (c ∷ cs) [] m mc w (ground (arith, w))
      (inr (inl (ground (arith, nc), shorter c cs)))
kstrcmp_lem (suc fuel) s t (c ∷ cs) (d ∷ ds) m (goes _ _ mc nc p) (goes _ _ md nd q) h =
    elim (Bool-cases (c == d)) [
      | inl same ↦
          let e : c ≡ d = ground (arith, same) in
          agree fuel s t c d cs ds m e (ground (arith, mc, md, nc, nd, e))
            (kstrcmp_lem fuel (suc s) (suc t) cs ds m p q (omega (arith, h)))
      | inr other ↦
          let stop : goes_on s t m ≡ false = ground (arith, mc, md, other) in
          differ fuel s t c d (c ∷ cs) (d ∷ ds) m mc md stop (elim (Bool-cases (ltb c d)) [
            | inl lt ↦ let l : c < d = ground (arith, lt) in inl (l, less c d cs ds l)
            | inr ge ↦ let g : d < c = ground (arith, ge, other) in inr (inl (g, less d c ds cs g))
          ])
    ]
