-- ===== src/Klib/List/Delete.antt =====
-- `list_del`.
use pepin_os.Base.{ℕ, ◌≡◌, ◌≢◌, arith, ◌==◌, false, List, [], ◌∷◌, ◌++◌, if◌then◌else◌}
use pepin_os.Klib.List.{Links, list_del}
use pepin_os.Klib.List.Chain.{
  has, has-append, has-last, has-middle, Distinct, Distinct-remove, Chain, IsRing, last, first,
  Chain-ends, Chain-frame,
}

-- `t` is `s` with `l` and `n` linked to one another.
record Joined (s t : Links) (l n : ℕ) : Type 0 where
  next : (p : ℕ) → t.next p ≡ (if l == p then n else s.next p)
  prev : (p : ℕ) → t.prev p ≡ (if n == p then l else s.prev p)

Chain-split :
    (s : Links) (a b y : ℕ) (xs ys : List ℕ)
    → Chain s a (xs ++ (y ∷ ys)) b
    → (s.prev y ≡ last a xs) × (s.next y ≡ first ys b)
Chain-split s a b y [] ys c = (c.1, (Chain-ends s y b ys c.2).0)
Chain-split s a b y (x ∷ xs) ys c = Chain-split s x b y xs ys c.2

remove-head :
    (s t : Links) (a b y : ℕ) (ys : List ℕ)
    → Chain s a (y ∷ ys) b
    → Joined s t a (first ys b)
    → has a ys ≡ false
    → has b ys ≡ false
    → Distinct (y ∷ ys)
    → Chain t a ys b
remove-head s t a b y [] c k fa fb d = (ground (arith, k.next a), ground (arith, k.prev b))
remove-head s t a b y (z ∷ zs) c k fa fb d = (
  ground (arith, k.next a),
  ground (arith, k.prev z),
  Chain-frame s t z b zs c.2.2 (λ p i. ground (arith, k.next p)) (λ p i. ground (arith, k.prev p)),
)

first-ne : (x b : ℕ) (ys : List ℕ) → has x ys ≡ false → x ≢ b → first ys b ≢ x
first-ne x b [] h ne = ground arith
first-ne x b (y ∷ ys) h ne = ground arith

remove-Chain :
    (s t : Links) (a b y : ℕ) (xs ys : List ℕ)
    → Chain s a (xs ++ (y ∷ ys)) b
    → Joined s t (last a xs) (first ys b)
    → has a (xs ++ (y ∷ ys)) ≡ false
    → has b (xs ++ (y ∷ ys)) ≡ false
    → Distinct (xs ++ (y ∷ ys))
    → Chain t a (xs ++ ys) b
remove-Chain s t a b y [] ys c k fa fb d =
    remove-head s t a b y ys c k (ground arith) (ground arith) d
remove-Chain s t a b y (x ∷ xs) ys c k fa fb d = (
  ground (arith, k.next a, has-last a x xs, has-append a xs (y ∷ ys)),
  ground (arith, k.prev x, first-ne x b ys, has-append x xs (y ∷ ys)),
  remove-Chain s t x b y xs ys c.2 k d.0 (ground arith) d.1,
)

-- `list_del` takes a node of a ring out, and leaves the others in their order.
pub list_del-IsRing :
    {s : Links} {h : ℕ} (xs : List ℕ) (y : ℕ) (ys : List ℕ)
    → IsRing s h (xs ++ (y ∷ ys))
    → IsRing (list_del y s) h (xs ++ ys)
unfolding list_del
list_del-IsRing {s} {h} xs y ys r = record {
  chain = remove-Chain s (list_del y s) h h y xs ys r.chain joined r.fresh r.fresh r.distinct;
  fresh = ground (arith, r.fresh, has-append h xs (y ∷ ys), has-append h xs ys);
  distinct = Distinct-remove xs ys y r.distinct;
}
  where
    apart : y ≢ last h xs
    apart =
        has-last y h xs
          (ground (arith, r.fresh, has-append h xs (y ∷ ys), has-middle xs ys y r.distinct))

    joined : Joined s (list_del y s) (last h xs) (first ys h)
    joined = record {
      next = λ p. ground (arith, Chain-split s h h y xs ys r.chain, apart);
      prev = λ p. ground (arith, Chain-split s h h y xs ys r.chain, apart);
    }
