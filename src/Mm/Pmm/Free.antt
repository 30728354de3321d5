-- ===== src/Mm/Pmm/Free.antt =====
-- `pmm_free_page`.
use pepin_os.Base.{
  ℕ, suc, ◌/◌, ◌≤◌, ◌<◌, ◌≡◌, inl, inr, arith, ◌==◌, ltb, Bool, false, ◌&&◌, if◌then◌else◌,
  Bool-cases, add32,
}
use pepin_os.Mm.Pmm.{Pmm, free_page, set_free}
use pepin_os.Mm.Pmm.Count.{zeros, zeros-le, zeros_set, zeros_congr}
use pepin_os.Mm.Pmm.Bitmap.{used, used-set_free, is_used_lem, used-le_one}
use pepin_os.Mm.Pmm.Valid.{IsValid}

-- `pmm_free_page` frees the page that holds the address, if the machine has it, and no other.
pub used-free_page :
    (addr : ℕ) (p : Pmm) (j : ℕ)
    → used (free_page addr p) j
      ≡ (if ltb (addr / 4096) p.total_pages && (addr / 4096 == j) then 0 else used p j)
unfolding free_page
used-free_page addr p j =
    ground (arith, used-set_free (addr / 4096) p j, is_used_lem (addr / 4096) p, used-le_one p j)

-- The count grows only if the page was taken, so a second release does nothing.
pub count-free_page :
    (addr : ℕ) (p : Pmm)
    → (free_page addr p).free_pages ≡ (
        if ltb (addr / 4096) p.total_pages && (used p (addr / 4096) == 1)
        then add32 p.free_pages 1
        else p.free_pages)
unfolding free_page set_free
count-free_page addr p = ground (arith, is_used_lem (addr / 4096) p, used-le_one p (addr / 4096))

pub total-free_page : (addr : ℕ) (p : Pmm) → (free_page addr p).total_pages ≡ p.total_pages
unfolding free_page set_free
total-free_page addr p = ground arith

zeros-free_page :
    (addr : ℕ) (p : Pmm)
    → addr / 4096 < p.total_pages
    → used p (addr / 4096) ≡ 1
    → zeros (used (free_page addr p)) p.total_pages ≡ suc (zeros (used p) p.total_pages)
zeros-free_page addr p lt taken =
    zeros_set (used (free_page addr p)) (used p) p.total_pages (addr / 4096)
      (ground (arith, used-free_page addr p (addr / 4096)))
      (λ j. ground (arith, used-free_page addr p j)) lt

-- Whether `pmm_free_page` changes anything.
frees : ℕ → Pmm → Bool
frees addr p = ltb (addr / 4096) p.total_pages && (used p (addr / 4096) == 1)

zeros-free_page_skip :
    (addr : ℕ) (p : Pmm)
    → frees addr p ≡ false
    → zeros (used (free_page addr p)) p.total_pages ≡ zeros (used p) p.total_pages
unfolding frees
zeros-free_page_skip addr p skip =
    zeros_congr (used (free_page addr p)) (used p) p.total_pages
      (λ j h. ground (arith, used-free_page addr p j, used-le_one p j))

counted-free_page :
    (addr : ℕ) (p : Pmm)
    → IsValid p
    → (free_page addr p).free_pages ≡ zeros (used (free_page addr p)) p.total_pages
unfolding frees
counted-free_page addr p v = elim (Bool-cases (frees addr p)) [
  | inl go ↦ ground (
    arith,
    count-free_page addr p,
    zeros-free_page addr p,
    zeros-le (used p) p.total_pages,
    v.counted,
    v.small,
  )
  | inr skip ↦ ground (arith, count-free_page addr p, zeros-free_page_skip addr p skip, v.counted)
]

-- `pmm_free_page` keeps the invariant if the address lies above the first 4 MB.
pub free_page-IsValid :
    (addr : ℕ) (p : Pmm) → IsValid p → 0x40_0000 ≤ addr → IsValid (free_page addr p)
free_page-IsValid addr p v high = record {
  small = omega (arith, total-free_page addr p, v.small);
  counted = ground (arith, total-free_page addr p, counted-free_page addr p v);
  reserved = λ i h. ground (arith, used-free_page addr p i, v.reserved i);
}
