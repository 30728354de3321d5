-- ===== src/Mm/Pmm/Alloc.antt =====
-- `pmm_alloc_page` and `pmm_free_page`: what they return, and what they do to the bitmap.
use pepin_os.Base.{
  ℕ, zero, suc, ◌+◌, ◌*◌, ◌≤◌, ◌<◌, ◌≡◌, refl, ◌⊎◌, inl, inr, arith, ◌==◌, if◌then◌else◌,
  Bool-cases, sub32, mul32,
}
use pepin_os.Mm.Pmm.{Pmm, alloc_from, alloc_page, set_used, is_used}
use pepin_os.Mm.Pmm.Bitmap.{used, used-set_used, is_used_lem, used-le_one}
use pepin_os.Mm.Pmm.Valid.{IsValid}

-- Page `i` was free and is taken now; no other page changed.
pub record Took (p : Pmm) (i : ℕ) (addr : ℕ) (q : Pmm) : Type 0 where
  pub at : addr ≡ i * 4096
  pub inside : i < p.total_pages
  pub was_free : used p i ≡ 0
  pub lowest : (j : ℕ) → j < i → used p j ≡ 1
  pub now : (j : ℕ) → used q j ≡ (if i == j then 1 else used p j)
  pub count : q.free_pages ≡ sub32 p.free_pages 1
  pub total : q.total_pages ≡ p.total_pages

-- No page was free, and nothing changed.
pub record Full (p : Pmm) (addr : ℕ) (q : Pmm) : Type 0 where
  pub null : addr ≡ 0
  pub same : q ≡ p
  pub taken : (j : ℕ) → j < p.total_pages → used p j ≡ 1

take_lem :
    (i : ℕ) (p : Pmm)
    → i < p.total_pages
    → p.total_pages ≤ 8192
    → used p i ≡ 0
    → ((j : ℕ) → j < i → used p j ≡ 1)
    → Took p i
        (mul32 i 4096)
        (let q = set_used i p in record q { free_pages = sub32 q.free_pages 1 })
unfolding set_used
take_lem i p lt small free below = record {
  at = omega arith;
  inside = lt;
  was_free = free;
  lowest = below;
  now = λ j. used-set_used i p j;
  count = refl;
  total = refl;
}

alloc_from_lem :
    (n i : ℕ) (p : Pmm)
    → i + n ≡ p.total_pages
    → p.total_pages ≤ 8192
    → ((j : ℕ) → j < i → used p j ≡ 1)
    → Full p (alloc_from n i p).0 (alloc_from n i p).1
      ⊎ ((k : ℕ) × Took p k (alloc_from n i p).0 (alloc_from n i p).1)
unfolding alloc_from
alloc_from_lem zero i p e small below =
    inl (record { null = refl; same = refl; taken = λ j h. below j (omega arith) })
alloc_from_lem (suc n) i p e small below = elim (Bool-cases (is_used i p == 0)) [
  | inl free ↦
      rw free (inr (i, take_lem i p (omega arith) small (ground (arith, is_used_lem i p)) below))
  | inr taken ↦ rw taken (
      alloc_from_lem n (suc i) p (omega arith) small
        (λ j h. ground (arith, below j, is_used_lem i p, used-le_one p i)))
]

pub alloc_page_cases :
    (p : Pmm)
    → p.total_pages ≤ 8192
    → Full p (alloc_page p).0 (alloc_page p).1
      ⊎ ((k : ℕ) × Took p k (alloc_page p).0 (alloc_page p).1)
unfolding alloc_page
alloc_page_cases p small =
    alloc_from_lem p.total_pages 0 p (omega arith) small (λ j h. absurd (omega arith))

-- A page that is handed out lies above the first 4 MB, so its address is not 0.
pub reserved_spared : {p q : Pmm} {k addr : ℕ} → IsValid p → Took p k addr q → 1024 ≤ k
reserved_spared {p} {q} {k} v t = ground (arith, v.reserved k, t.was_free)

-- A valid allocator either hands out the address of its lowest free page, which lies above the
-- first 4 MB and which it marks and takes off the count, or has no free page, returns 0 and
-- changes nothing.
pub alloc_page_lem :
    (p : Pmm)
    → IsValid p
    → Full p (alloc_page p).0 (alloc_page p).1
      ⊎ ((k : ℕ) × Took p k (alloc_page p).0 (alloc_page p).1 × (1024 ≤ k))
alloc_page_lem p v = elim (alloc_page_cases p v.small) [
  | inl full ↦ inl full
  | inr (k, t) ↦ inr (k, t, reserved_spared v t)
]
