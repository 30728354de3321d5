-- ===== src/Klib/Strings/Prefix.antt =====
-- Comparing the first bytes of strings.
use pepin_os.Base.{
  ℕ, zero, suc, ◌<◌, ◌≡◌, refl, inl, inr, arith, ◌==◌, ltb, true, false, List, [], ◌∷◌, Bool-cases,
}
use mathlib.Core.Path.{subst}
use pepin_os.Base.Memory.{Memory}
use pepin_os.Klib.Strings.{goes_on, kstrncmp}
use pepin_os.Klib.Strings.Text.{IsText, ends, goes}
use pepin_os.Klib.Strings.Order.{
  shorter, less, Compares, equal, smaller, greater, later_Compares, sub_less, sub_greater,
}

-- The first `n` bytes of a string, or all of it.
abbrev pub take : {A : Type 0} → ℕ → List A → List A
take zero xs = []
take (suc n) [] = []
take (suc n) (x ∷ xs) = x ∷ take n xs

-- `kstrncmp` gives a number whose sign is the order in a dictionary of the first `n` bytes of the
-- strings, and 0 exactly if these are equal.
pub kstrncmp_lem :
    (s t n : ℕ) (cs ds : List ℕ) (m : Memory)
    → IsText m s cs
    → IsText m t ds
    → Compares (take n cs) (take n ds) (kstrncmp s t n m)
unfolding kstrncmp
kstrncmp_lem s t zero cs ds m p q = equal refl
kstrncmp_lem s t (suc n) [] [] m (ends _ z) (ends _ w) = rw (z, w) (equal refl)
kstrncmp_lem s t (suc n) [] (d ∷ ds) m (ends _ z) (goes _ _ md nd q) =
    let (k, e) = sub_less 0 d (ground (arith, nd)) in
    rw (z, md, e) (smaller k (shorter d (take n ds)))
kstrncmp_lem s t (suc n) (c ∷ cs) [] m (goes _ _ mc nc p) (ends _ w) =
    let stop : goes_on s t m ≡ false = ground (arith, w) in
    let (k, e) = sub_greater c 0 (ground (arith, nc)) in
    rw (stop, mc, w, e) (greater k (shorter c (take n cs)))
kstrncmp_lem s t (suc n) (c ∷ cs) (d ∷ ds) m (goes _ _ mc nc p) (goes _ _ md nd q) =
    elim (Bool-cases (c == d)) [
      | inl same ↦
          let e : c ≡ d = ground (arith, same) in
          let more : goes_on s t m ≡ true = ground (arith, mc, md, nc, nd, e) in
          rw more (
            subst
              (λ (x : ℕ). Compares (c ∷ take n cs) (x ∷ take n ds) (kstrncmp (suc s) (suc t) n m)) e
              (later_Compares c (take n cs) (take n ds) (kstrncmp (suc s) (suc t) n m)
                (kstrncmp_lem (suc s) (suc t) n cs ds m p q)))
      | inr other ↦
          let stop : goes_on s t m ≡ false = ground (arith, mc, md, other) in
          elim (Bool-cases (ltb c d)) [
            | inl lt ↦
                let l : c < d = ground (arith, lt) in
                let (k, e) = sub_less c d l in
                rw (stop, mc, md, e) (smaller k (less c d (take n cs) (take n ds) l))
            | inr ge ↦
                let g : d < c = ground (arith, ge, other) in
                let (k, e) = sub_greater c d g in
                rw (stop, mc, md, e) (greater k (less d c (take n ds) (take n cs) g))
          ]
    ]
