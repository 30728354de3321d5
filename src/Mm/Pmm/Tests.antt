-- ===== src/Mm/Pmm/Tests.antt =====
-- The page allocator at concrete inputs: a machine with two pages above the first 4 MB.
use pepin_os.Base.{
  ℕ, ◌+◌, ◌≤◌, ◌<◌, ◌≡◌, refl, ◌≢◌, ◌⊎◌, arith, ◌==◌, ltb, leb, ◌&&◌, if◌then◌else◌,
}
use pepin_os.Base.Bits.{bit}
use pepin_os.Mm.Pmm.{Pmm, init, alloc_page, free_page, free_count, set_used, is_used}
use pepin_os.Mm.Pmm.Bitmap.{used}
use pepin_os.Mm.Pmm.Valid.{IsValid, init_lem}
use pepin_os.Mm.Pmm.Alloc.{Took, Full, alloc_page_lem}
use pepin_os.Mm.Pmm.Free.{used-free_page, count-free_page}
use pepin_os.Mm.Pmm.Exhaust.{stop, alloc, release, Calls-held, alloc_page-free_zero}

abbrev zeroed : Pmm
zeroed = record { bitmap = λ _. 0; total_pages = 0; free_pages = 0 }

abbrev booted : Pmm
booted = init 0x40_2000 zeroed

booted-IsValid : IsValid booted
booted-IsValid = (init_lem 0x40_2000 zeroed).0

booted_pages : (booted.total_pages ≡ 1026) × (booted.free_pages ≡ 2)
booted_pages = ((init_lem 0x40_2000 zeroed).1, (init_lem 0x40_2000 zeroed).2)

-- Two pages, and then none.
abbrev two_left : Pmm
two_left = record {
  bitmap = λ w. if w == 0 then 0x0000_000F else 0xFFFF_FFFF;
  total_pages = 6;
  free_pages = 2;
}

runs_out :
    ((alloc_page two_left).0 ≡ 0x4000)
    × ((alloc_page (alloc_page two_left).1).0 ≡ 0x5000)
    × ((alloc_page (alloc_page (alloc_page two_left).1).1).0 ≡ 0)
unfolding alloc_page is_used set_used
runs_out = (refl, refl, refl)

init_lem_example :
    IsValid booted
    × (booted.total_pages ≡ 1026)
    × (booted.free_pages ≡ 2)
    × ((i : ℕ) → i < 8192 → used booted i ≡ (if leb 1024 i && ltb i 1026 then 0 else 1))
init_lem_example = init_lem 0x40_2000 zeroed

alloc_page_lem_example :
    Full booted (alloc_page booted).0 (alloc_page booted).1
    ⊎ ((k : ℕ) × Took booted k (alloc_page booted).0 (alloc_page booted).1 × (1024 ≤ k))
alloc_page_lem_example = alloc_page_lem booted booted-IsValid

used-free_page_example : used (free_page 0x40_0000 two_left) 3 ≡ 1
unfolding bit
used-free_page_example = used-free_page 0x40_0000 two_left 3

count-free_page_example : (free_page 0x3000 two_left).free_pages ≡ 3
unfolding bit
count-free_page_example = count-free_page 0x3000 two_left

-- Page 5 belongs to the kernel, and is held through an allocation and a release.
abbrev later : Pmm
later = free_page 0x40_1000 (alloc_page booted).1

Calls-held_example :
    IsValid later
    × (used later 5 ≡ 1)
    × (((alloc_page later).0 ≢ 20480) ⊎ ((alloc_page later).0 ≡ 0))
Calls-held_example =
    Calls-held 5 {p = booted} {q = later}
      (alloc (release 0x40_1000 (omega arith) (omega arith) stop)) booted-IsValid
      (booted-IsValid.reserved 5 (omega arith))

alloc_page-free_zero_example :
    ((alloc_page (free_page 0 booted)).0 ≡ 0)
    × (free_count (free_page 0 booted) ≡ free_count booted + 1)
alloc_page-free_zero_example =
    alloc_page-free_zero booted booted-IsValid (omega (arith, booted_pages.0))
