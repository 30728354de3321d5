-- ===== src/Mm/Pmm/Low.antt =====
-- Which pages a run of allocations takes: the lowest free ones. The kernel maps the first 16 MB, 4096
-- pages, so a page from 16 MB on cannot be filled.
use pepin_os.Base.{
  ℕ, zero, suc, ◌-◌, ◌<◌, ◌≡◌, refl, sym, ap, ◌∙◌, ◌≢◌, ◌⊎◌, inl, inr, arith, ◌==◌, Bool-cases,
}
use pepin_os.Mm.Pmm.{Pmm, alloc_page}
use pepin_os.Mm.Pmm.Count.{zeros_above}
use pepin_os.Mm.Pmm.Bitmap.{used}
use pepin_os.Mm.Pmm.Valid.{IsValid}
use pepin_os.Mm.Pmm.Alloc.{alloc_page_cases}
use pepin_os.Mm.Pmm.Exhaust.{alloc-IsValid}

-- Allocations, one after the other.
pub data Allocs (p : Pmm) : Pmm → Type 0 where
  here : Allocs p p
  more : {q : Pmm} → Allocs p q → Allocs p (alloc_page q).1

Allocs-IsValid : {p q : Pmm} → Allocs p q → IsValid p → IsValid q
Allocs-IsValid here v = v
Allocs-IsValid (more {q} a) v = alloc-IsValid q (Allocs-IsValid a v)

Allocs-total : {p q : Pmm} → Allocs p q → IsValid p → q.total_pages ≡ p.total_pages
Allocs-total here v = refl
Allocs-total (more {q} a) v = elim (alloc_page_cases q (Allocs-IsValid a v).small) [
  | inl full ↦ ap (λ (x : Pmm). x.total_pages) full.same ∙ Allocs-total a v
  | inr (k, t) ↦ t.total ∙ Allocs-total a v
]

-- What was taken lies below what is still free.
lowest_taken :
    {p q : Pmm}
    → Allocs p q
    → IsValid p
    → (i j : ℕ) → used p i ≡ 0
    → used q i ≡ 1
    → used q j ≡ 0
    → i < j
lowest_taken here v i j free taken open_page = absurd (omega (arith, free, taken))
lowest_taken (more {q} a) v i j free taken open_page =
    elim (alloc_page_cases q (Allocs-IsValid a v).small) [
      | inl full ↦
          lowest_taken a v i j free (sym (ap (λ (x : Pmm). used x i) full.same) ∙ taken)
            (sym (ap (λ (x : Pmm). used x j) full.same) ∙ open_page)
      | inr (k, t) ↦ elim (Bool-cases (k == i)) [
        | inl this ↦ ground (arith, this, t.now j, open_page, t.lowest j, t.was_free)
        | inr older ↦
            lowest_taken a v i j free (ground (arith, older, t.now i, taken))
              (ground (arith, t.now j, open_page))
      ]
    ]

search : (f : ℕ → ℕ) (m : ℕ) → ((j : ℕ) × (j < m) × (f j ≡ 0)) ⊎ ((j : ℕ) → j < m → f j ≢ 0)
search f zero = inr (λ j h. absurd (omega (arith, h)))
search f (suc m) = elim (Bool-cases (f m == 0)) [
  | inl hit ↦ inl (m, omega arith, ground (arith, hit))
  | inr miss ↦ elim (search f m) [
    | inl (j, h, e) ↦ inl (j, omega (arith, h), e)
    | inr none_free ↦ inr (λ j h. elim (Bool-cases (j == m)) [
      | inl same ↦ let e : j ≡ m = ground (arith, same) in rw e (ground (arith, miss))
      | inr other ↦ none_free j (ground (arith, h, other))
    ])
  ]
]

-- If more pages are left free than there are from 16 MB on, only pages below 16 MB were taken.
pub Allocs-low :
    {p q : Pmm}
    → Allocs p q
    → IsValid p
    → p.total_pages - 4096 < q.free_pages
    → (i : ℕ) → used p i ≡ 0
    → used q i ≡ 1
    → i < 4096
Allocs-low {p} {q} a v left i free taken =
    let w = Allocs-IsValid a v in
    elim (search (used q) 4096) [
      | inl (j, h, e) ↦ omega (arith, lowest_taken a v i j free taken e, h)
      | inr none_free ↦ absurd (
          omega (
            arith,
            left,
            w.counted,
            Allocs-total a v,
            zeros_above (used q) 4096 q.total_pages none_free,
          ))
    ]
