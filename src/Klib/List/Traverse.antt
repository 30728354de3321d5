-- ===== src/Klib/List/Traverse.antt =====
-- `list_empty` and `list_for_each`.
use pepin_os.Base.{ℕ, zero, suc, ◌<◌, ◌≡◌, refl, arith, ◌==◌, false, some, List, [], ◌∷◌, length}
use pepin_os.Klib.List.{Links, list_empty, for_each_from, list_for_each}
use pepin_os.Klib.List.Chain.{has, Chain, IsRing}

-- `list_empty` says whether the ring has no node.
pub list_empty_lem :
    {s : Links} {h : ℕ} (xs : List ℕ) → IsRing s h xs → list_empty h s ≡ (length xs == 0)
unfolding list_empty
list_empty_lem [] r = ground (arith, r.chain)
list_empty_lem (x ∷ xs) r = ground (arith, r.chain, r.fresh)

for_each_from_lem :
    (n : ℕ) (s : Links) (h p : ℕ) (a : ℕ) (xs : List ℕ)
    → Chain s a xs h
    → s.next a ≡ p
    → has h xs ≡ false
    → length xs < n
    → for_each_from n p h s ≡ some xs
unfolding for_each_from
for_each_from_lem zero s h p a xs c e f lt = absurd (omega arith)
for_each_from_lem (suc n) s h p a [] c e f lt = ground arith
for_each_from_lem (suc n) s h p a (x ∷ xs) c e f lt =
    ground (arith, for_each_from_lem n s h (s.next x) x xs c.2 refl)

-- `list_for_each` ends, and visits every node of the ring once, in order.
pub list_for_each_lem :
    {s : Links} {h : ℕ} (fuel : ℕ) (xs : List ℕ)
    → IsRing s h xs
    → length xs < fuel
    → list_for_each fuel h s ≡ some xs
unfolding list_for_each
list_for_each_lem {s} {h} fuel xs r lt =
    for_each_from_lem fuel s h (s.next h) h xs r.chain refl r.fresh lt
