-- ===== src/Mm/Vmm/Allocs.antt =====
-- Mapping a page allocates at most one page, and releases none.
use pepin_os.Base.{ℕ, ◌+◌, ◌*◌, ◌/◌, ◌^◌, ◌==◌, bit_and, inl, inr, Bool-cases}
use pepin_os.Base.Memory.{Memory, read32}
use pepin_os.Mm.Pmm.{Pmm}
use pepin_os.Mm.Pmm.Low.{Allocs, more}
use pepin_os.Mm.Vmm.{map_page}

pub map_page-Allocs :
    (dir_entry : ℕ → ℕ) (pd virt phys flags : ℕ) (mem : Memory) {p pmm : Pmm}
    → Allocs p pmm
    → Allocs p (map_page dir_entry pd virt phys flags mem pmm).1
unfolding map_page
map_page-Allocs dir_entry pd virt phys flags mem a =
    elim (Bool-cases (bit_and (read32 mem (pd + 4 * (virt / 2 ^ 22))) 1 == 0)) [
      | inl absent ↦ rw absent (more a)
      | inr present ↦ rw present a
    ]
