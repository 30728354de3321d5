-- ===== src/Mm/Pmm/Exhaust.antt =====
-- Sequences of calls: what stays true between an allocation and the release of its page.
use pepin_os.Base.{ℕ, suc, ap, ◌∙◌, ◌+◌, ◌*◌, ◌/◌, ◌≤◌, ◌<◌, ◌≡◌, ◌≢◌, ◌⊎◌, inl, inr, arith}
use pepin_os.Mm.Pmm.{Pmm, alloc_page, free_page, free_count}
use pepin_os.Mm.Pmm.Count.{zeros, zeros-le, ne-zero_of_zeros, zeros-eq-zero}
use pepin_os.Mm.Pmm.Bitmap.{used}
use pepin_os.Mm.Pmm.Valid.{IsValid}
use pepin_os.Mm.Pmm.Alloc.{alloc_page_cases, reserved_spared}
use pepin_os.Mm.Pmm.Free.{used-free_page, free_page-IsValid, count-free_page, total-free_page}
use pepin_os.Mm.Pmm.Keeps.{Took-IsValid, count_of_taken}

-- Calls by clients that return only pages above the first 4 MB, and never page `k`.
pub data Calls (k : ℕ) : Pmm → Pmm → Type 0 where
  stop : {p : Pmm} → Calls k p p
  alloc : {p q : Pmm} → Calls k (alloc_page p).1 q → Calls k p q
  release :
      {p q : Pmm} (addr : ℕ)
      → 0x40_0000 ≤ addr
      → addr / 4096 ≢ k
      → Calls k (free_page addr p) q
      → Calls k p q

pub alloc-IsValid : (p : Pmm) → IsValid p → IsValid (alloc_page p).1
alloc-IsValid p v = elim (alloc_page_cases p v.small) [
  | inl full ↦ rw full.same v
  | inr (k, t) ↦ Took-IsValid v t
]

used-alloc_page : (p : Pmm) (k : ℕ) → IsValid p → used p k ≡ 1 → used (alloc_page p).1 k ≡ 1
used-alloc_page p k v held = elim (alloc_page_cases p v.small) [
  | inl full ↦ rw full.same held
  | inr (i, t) ↦ ground (arith, t.now k)
]

-- From a valid allocator on, whatever clients allocate, and as long as the addresses that they
-- release are 4 MB or more, the allocator stays valid, and a page that is taken and that nobody
-- releases is not handed out again.
pub Calls-held :
    (k : ℕ) {p q : Pmm}
    → Calls k p q
    → IsValid p
    → used p k ≡ 1
    → IsValid q × (used q k ≡ 1) × ((alloc_page q).0 ≢ k * 4096 ⊎ ((alloc_page q).0 ≡ 0))
Calls-held k {p} stop v held = (
  v,
  held,
  elim (alloc_page_cases p v.small) [
    | inl full ↦ inr full.null
    | inr (i, t) ↦ inl (λ e. ground (arith, t.at, t.was_free))
  ],
)
Calls-held k {p} (alloc c) v held = Calls-held k c (alloc-IsValid p v) (used-alloc_page p k v held)
Calls-held k {p} (release addr high ne c) v held =
    Calls-held k c (free_page-IsValid addr p v high) (ground (arith, used-free_page addr p k))

-- `pmm_alloc_page` returns 0 exactly when `pmm_free_count` is 0.
alloc_page-free_count :
    (p : Pmm)
    → IsValid p
    → ((alloc_page p).0 ≡ 0 → free_count p ≡ 0) × (free_count p ≡ 0 → (alloc_page p).0 ≡ 0)
unfolding free_count
alloc_page-free_count p v = elim (alloc_page_cases p v.small) [
  | inl full ↦ (
    λ _. omega (
      arith,
      v.counted,
      zeros-eq-zero (used p) p.total_pages (λ i h e. omega (arith, full.taken i h)),
    ),
    λ _. full.null,
  )
  | inr (k, t) ↦ (
    λ e. absurd (omega (arith, t.at, reserved_spared v t)),
    λ e.
        absurd (
          ne-zero_of_zeros (used p) p.total_pages k (omega (arith, v.counted)) t.inside t.was_free),
  )
]

-- Releasing the page that was just allocated gives back the bitmap and the count.
pub free_page-alloc_page :
    (p : Pmm)
    → IsValid p
    → (alloc_page p).0 ≢ 0
    → let q = free_page (alloc_page p).0 (alloc_page p).1 in
      ((j : ℕ) → used q j ≡ used p j) × (free_count q ≡ free_count p)
unfolding free_count
free_page-alloc_page p v ne = elim (alloc_page_cases p v.small) [
  | inl full ↦ absurd (ne full.null)
  | inr (k, t) ↦
      let page : (alloc_page p).0 / 4096 ≡ k = omega (arith, t.at) in
      (
        λ j. ground (
          arith,
          used-free_page (alloc_page p).0 (alloc_page p).1 j,
          t.now j,
          t.was_free,
          t.inside,
          t.total,
          page,
        ),
        ground (
          arith,
          count-free_page (alloc_page p).0 (alloc_page p).1,
          t.now k,
          t.count,
          t.inside,
          t.total,
          page,
          v.small,
          v.counted,
          count_of_taken v t,
          zeros-le (used p) p.total_pages,
        ),
      )
]

-- Nothing stops a client from releasing page 0. Then the next allocation returns the address 0,
-- which its caller cannot tell from a lack of memory, although the count says that one page more
-- is free than before.
pub alloc_page-free_zero :
    (p : Pmm)
    → IsValid p
    → 0 < p.total_pages
    → ((alloc_page (free_page 0 p)).0 ≡ 0) × (free_count (free_page 0 p) ≡ free_count p + 1)
unfolding free_count
alloc_page-free_zero p v some_page = (
  elim (alloc_page_cases (free_page 0 p) (omega (arith, total-free_page 0 p, v.small))) [
    | inl full ↦ full.null
    | inr (k, t) ↦ ground (arith, t.at, t.lowest 0, used-free_page 0 p 0)
  ],
  ground (
    arith,
    count-free_page 0 p,
    v.reserved 0,
    v.counted,
    v.small,
    zeros-le (used p) p.total_pages,
  ),
)

-- While pages are left, an allocation takes one of them.
pub alloc_page_left :
    (p : Pmm)
    → IsValid p
    → 0 < p.free_pages
    → ((alloc_page p).0 ≢ 0)
      × IsValid (alloc_page p).1
      × (suc (alloc_page p).1.free_pages ≡ p.free_pages)
alloc_page_left p v h = elim (alloc_page_cases p v.small) [
  | inl full ↦ absurd (
      omega (
        arith,
        h,
        v.counted,
        zeros-eq-zero (used p) p.total_pages (λ i b e. omega (arith, full.taken i b)),
      ))
  | inr (k, t) ↦
      let v' = Took-IsValid v t in
      (
        λ e. omega (arith, t.at, reserved_spared v t, e),
        v',
        omega (
          arith,
          v.counted,
          v'.counted,
          count_of_taken v t,
          ap (zeros (used (alloc_page p).1)) t.total,
        ),
      )
]

-- An allocation takes at most one page, and gives none back.
pub alloc_page_spends :
    (p : Pmm)
    → IsValid p
    → (p.free_pages ≤ (alloc_page p).1.free_pages + 1)
      × ((i : ℕ) → used p i ≡ 1 → used (alloc_page p).1 i ≡ 1)
alloc_page_spends p v = elim (alloc_page_cases p v.small) [
  | inl full ↦ (
    omega (arith, ap (λ (q : Pmm). q.free_pages) full.same),
    λ i h. ap (λ (q : Pmm). used q i) full.same ∙ h,
  )
  | inr (k, t) ↦ (
    let v' = Took-IsValid v t in
        omega (
          arith,
          v.counted,
          v'.counted,
          count_of_taken v t,
          ap (zeros (used (alloc_page p).1)) t.total,
        ),
    λ i h. t.now i ∙ ground (arith, h),
  )
]
