-- ===== src/Klib/List/Insert.antt =====
-- `list_init`, `list_add` and `list_add_tail`.
use pepin_os.Base.{ℕ, ◌≡◌, refl, ◌≢◌, arith, ◌==◌, false, List, [], ◌∷◌, ◌++◌, if◌then◌else◌}
use pepin_os.Klib.List.{Links, list_init, list_add, list_add_tail}
use pepin_os.Klib.List.Chain.{
  has, has-append, has-last, Distinct, Distinct-append_one, Chain, IsRing, last, Chain-ends,
  Chain-frame,
}

-- `list_init` makes an empty ring, whatever the node held.
pub list_init-IsRing : (s : Links) (h : ℕ) → IsRing (list_init h s) h []
unfolding list_init
list_init-IsRing s h = record { chain = (ground arith, ground arith); fresh = refl; distinct = tt }

add-Chain :
    (s : Links) (h new : ℕ) (xs : List ℕ)
    → IsRing s h xs
    → has new (h ∷ xs) ≡ false
    → Chain (list_add h new s) h (new ∷ xs) h
unfolding list_add
add-Chain s h new [] r out =
    let (a, b) = r.chain in (ground arith, ground arith, (ground arith, ground arith))
add-Chain s h new (x ∷ xs) r out =
    let d = r.distinct in
    let f = r.fresh in
    let (a, b, c) = r.chain in
    (
      ground arith,
      ground arith,
      (
        ground arith,
        ground arith,
        Chain-frame s (list_add h new s) x h xs c (λ p i. ground arith) (λ p i. ground arith),
      ),
    )

-- `list_add` puts a new node in front of the nodes of a ring.
pub list_add-IsRing :
    {s : Links} {h : ℕ} {xs : List ℕ} (new : ℕ)
    → IsRing s h xs
    → has new (h ∷ xs) ≡ false
    → IsRing (list_add h new s) h (new ∷ xs)
list_add-IsRing {s} {h} {xs} new r out = record {
  chain = add-Chain s h new xs r out;
  fresh = ground (arith, r.fresh);
  distinct = (ground arith, r.distinct);
}

-- `t` is `s` with `new` linked between `l` and `b`.
record Linked (s t : Links) (new l b : ℕ) : Type 0 where
  next : (p : ℕ) → t.next p ≡ (if l == p then new else if new == p then b else s.next p)
  prev : (p : ℕ) → t.prev p ≡ (if new == p then l else if b == p then new else s.prev p)

append-Chain :
    (s t : Links) (a b new : ℕ) (xs : List ℕ)
    → Chain s a xs b
    → Linked s t new (last a xs) b
    → has a xs ≡ false
    → has b xs ≡ false
    → Distinct xs
    → has new (a ∷ xs) ≡ false
    → new ≢ b
    → Chain t a (xs ++ (new ∷ [])) b
append-Chain s t a b new [] c k fa fb d out ne = (
  ground (arith, k.next a),
  ground (arith, k.prev new),
  (ground (arith, k.next new), ground (arith, k.prev b)),
)
append-Chain s t a b new (x ∷ xs) c k fa fb d out ne = (
  ground (arith, k.next a, has-last a x xs),
  ground (arith, k.prev x),
  append-Chain s t x b new xs c.2 k d.0 (ground arith) d.1 (ground arith) ne,
)

-- `list_add_tail` puts a new node behind the nodes of a ring.
pub list_add_tail-IsRing :
    {s : Links} {h : ℕ} {xs : List ℕ} (new : ℕ)
    → IsRing s h xs
    → has new (h ∷ xs) ≡ false
    → IsRing (list_add_tail h new s) h (xs ++ (new ∷ []))
unfolding list_add_tail
list_add_tail-IsRing {s} {h} {xs} new r out = record {
  chain =
      append-Chain s (list_add_tail h new s) h h new xs r.chain linked r.fresh r.fresh r.distinct
        out (ground arith);
  fresh = ground (arith, r.fresh, has-append h xs (new ∷ []));
  distinct = Distinct-append_one xs new r.distinct (ground arith);
}
  where
    linked : Linked s (list_add_tail h new s) new (last h xs) h
    linked = record {
      next = λ p. ground (arith, Chain-ends s h h xs r.chain);
      prev = λ p. ground (arith, Chain-ends s h h xs r.chain);
    }
