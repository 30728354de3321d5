-- ===== src/Klib/List/Chain.antt =====
-- What a well-formed ring is, and what a change elsewhere leaves of it.
use pepin_os.Base.{
  ℕ, ◌≡◌, refl, ◌∙◌, ◌≢◌, arith, ◌==◌, Bool, true, false, ◌||◌, List, [], ◌∷◌, ◌++◌,
}
use pepin_os.Klib.List.{Links}

abbrev pub has : ℕ → List ℕ → Bool
has a [] = false
has a (x ∷ xs) = (a == x) || has a xs

abbrev pub Distinct : List ℕ → Type 0
Distinct [] = Unit
Distinct (x ∷ xs) = (has x xs ≡ false) × Distinct xs

-- From `a` the `next` pointers lead through the nodes `xs` to `b`, and the `prev` pointers back.
abbrev pub Chain : Links → ℕ → List ℕ → ℕ → Type 0
Chain s a [] b = (s.next a ≡ b) × (s.prev b ≡ a)
Chain s a (x ∷ xs) b = (s.next a ≡ x) × (s.prev x ≡ a) × Chain s x xs b

-- The ring with the sentinel `h` holds the nodes `xs`, in order.
pub record IsRing (s : Links) (h : ℕ) (xs : List ℕ) : Type 0 where
  pub chain : Chain s h xs h
  pub fresh : has h xs ≡ false
  pub distinct : Distinct xs

abbrev pub last : ℕ → List ℕ → ℕ
last a [] = a
last a (x ∷ xs) = last x xs

abbrev pub first : List ℕ → ℕ → ℕ
first [] b = b
first (x ∷ xs) b = x

pub has-append : (a : ℕ) (xs ys : List ℕ) → has a (xs ++ ys) ≡ (has a xs || has a ys)
has-append a [] ys = refl
has-append a (x ∷ xs) ys = ground (arith, has-append a xs ys)

pub Distinct-append_one :
    (xs : List ℕ) (new : ℕ) → Distinct xs → has new xs ≡ false → Distinct (xs ++ (new ∷ []))
Distinct-append_one [] new d h = (refl, tt)
Distinct-append_one (x ∷ xs) new d h =
    (ground (arith, has-append x xs (new ∷ [])), Distinct-append_one xs new d.1 (ground arith))

pub Distinct-remove : (xs ys : List ℕ) (y : ℕ) → Distinct (xs ++ (y ∷ ys)) → Distinct (xs ++ ys)
Distinct-remove [] ys y d = d.1
Distinct-remove (x ∷ xs) ys y d =
    (ground (arith, has-append x xs (y ∷ ys), has-append x xs ys), Distinct-remove xs ys y d.1)

pub has-last : (a x : ℕ) (xs : List ℕ) → has a (x ∷ xs) ≡ false → a ≢ last x xs
has-last a x [] h = ground arith
has-last a x (y ∷ xs) h = has-last a y xs (ground arith)

pub Chain-ends :
    (s : Links) (a b : ℕ) (xs : List ℕ)
    → Chain s a xs b
    → (s.next a ≡ first xs b) × (s.prev b ≡ last a xs) × (s.next (last a xs) ≡ b)
Chain-ends s a b [] c = (c.0, c.1, c.0)
Chain-ends s a b (x ∷ xs) c = let e = Chain-ends s x b xs c.2 in (c.0, e.1, e.2)

pub Chain-frame :
    (s t : Links) (a b : ℕ) (xs : List ℕ)
    → Chain s a xs b
    → ((p : ℕ) → has p (a ∷ xs) ≡ true → t.next p ≡ s.next p)
    → ((p : ℕ) → has p (b ∷ xs) ≡ true → t.prev p ≡ s.prev p)
    → Chain t a xs b
Chain-frame s t a b [] c n p = (n a (ground arith) ∙ c.0, p b (ground arith) ∙ c.1)
Chain-frame s t a b (x ∷ xs) c n p = (
  n a (ground arith) ∙ c.0,
  p x (ground arith) ∙ c.1,
  Chain-frame s t x b xs c.2 (λ q h. n q (ground arith)) (λ q h. p q (ground arith)),
)

pub has-middle : (xs ys : List ℕ) (y : ℕ) → Distinct (xs ++ (y ∷ ys)) → has y xs ≡ false
has-middle [] ys y d = refl
has-middle (x ∷ xs) ys y d = ground (arith, d.0, has-append x xs (y ∷ ys), has-middle xs ys y d.1)
