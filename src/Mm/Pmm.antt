-- ===== src/Mm/Pmm.antt =====
-- mm/pmm.c and mm/pmm.h: the bitmap of physical 4 KB pages. The three static variables are the
-- fields of one record, and a function that writes them returns the new record.
pub mod Count
pub mod Bitmap
pub mod Alloc
pub mod Valid
pub mod Free
pub mod Keeps
pub mod Exhaust
pub mod Low
mod Tests
use pepin_os.Base.{
  ℕ, zero, suc, ◌+◌, ◌-◌, ◌*◌, ◌/◌, ◌%◌, ◌^◌, ltb, ◌==◌, if◌then◌else◌, ◌&&◌, not, bit_and, bit_or,
  update, for_range, u32_mod, add32, sub32, mul32, shl32,
}
use pepin_os.Base.Bits.{not32}

abbrev pub pmm_page_size : ℕ
pmm_page_size = 4096

abbrev pub pmm_max_pages : ℕ
pmm_max_pages = 8192

abbrev pub pmm_reserved : ℕ
pmm_reserved = 0x400000

pub record Pmm : Type 0 where
  pub bitmap : ℕ → ℕ
  pub total_pages : ℕ
  pub free_pages : ℕ

pub set_used : ℕ → Pmm → Pmm
set_used idx p = record p {
  bitmap = update p.bitmap (idx / 32) (bit_or (p.bitmap (idx / 32)) (shl32 1 (idx % 32)));
}

pub set_free : ℕ → Pmm → Pmm
set_free idx p = record p {
  bitmap = update p.bitmap (idx / 32) (bit_and (p.bitmap (idx / 32)) (not32 (shl32 1 (idx % 32))));
}

-- `int` 0 or 1.
pub is_used : ℕ → Pmm → ℕ
is_used idx p = bit_and (p.bitmap (idx / 32) / 2 ^ (idx % 32)) 1

-- One round of the second loop of `pmm_init`.
pub release : ℕ → Pmm → Pmm
release i p = let q = set_free i p in record q { free_pages = add32 q.free_pages 1 }

pub init : ℕ → Pmm → Pmm
init mem_size p =
    let pages = mem_size / pmm_page_size in
    let total = if ltb pmm_max_pages pages then pmm_max_pages else pages in
    let bitmap = for_range (pmm_max_pages / 32) 0 (λ i b. update b i 0xFFFF_FFFF) p.bitmap in
    let q : Pmm = record { bitmap = bitmap; total_pages = total; free_pages = 0 } in
    let first : ℕ = pmm_reserved / pmm_page_size in for_range (total - first) first release q

-- The loop of `pmm_alloc_page` with `n` rounds left, at page `i`.
pub alloc_from : ℕ → ℕ → Pmm → ℕ × Pmm
alloc_from zero i p = (0, p)
alloc_from (suc n) i p =
    let rest = alloc_from n (suc i) p in
    let q = set_used i p in
    if is_used i p == 0
    then (mul32 i pmm_page_size, record q { free_pages = sub32 q.free_pages 1 })
    else rest

pub alloc_page : Pmm → ℕ × Pmm
unfolding alloc_from
alloc_page p = alloc_from p.total_pages 0 p

pub free_page : ℕ → Pmm → Pmm
free_page addr p =
    let idx = addr / pmm_page_size in
    let q = set_free idx p in
    if ltb idx p.total_pages && not (is_used idx p == 0)
    then record q { free_pages = add32 q.free_pages 1 }
    else p

pub free_count : Pmm → ℕ
free_count p = p.free_pages
