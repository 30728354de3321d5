-- ===== src/Mm/Vmm.antt =====
-- mm/vmm.c: mapping a page in the kernel's directory. fs/elf.c does the same in the directory of
-- a process: `map_page` is the body of both, with the flags of a new directory entry and the
-- directory. Dropping the entry from the TLB is inline assembly.
pub mod Words
pub mod Space
pub mod Map
pub mod Bytes
pub mod Grows
pub mod Kernel
pub mod Allocs
mod Tests
use pepin_os.Base.{
  ℕ, zero, suc, ◌+◌, ◌-◌, ◌*◌, ◌/◌, ◌%◌, ◌^◌, ◌≤◌, ◌<◌, ◌≡◌, refl, sym, ap, ◌∙◌, ◌≢◌, ◌⊎◌, inl, inr,
  arith, ◌==◌, ltb, leb, min, max, bit_and, bit_or, Bool, true, false, not, ◌&&◌, ◌||◌, Option,
  none, some, List, [], ◌∷◌, ◌++◌, map, if◌then◌else◌, for_range, update, for_range-update,
  update_self, length, get_elem?, length-append, Bool-cases, Option-cases, u32_mod, add32, sub32,
  mul32, shl32, shl32-one, pow-lt-u32, ltb→lt, lt→ltb, ltb→le, ==_iff,
}
use pepin_os.Base.Bits.{not32}
use pepin_os.Base.Memory.{Memory, read32, write32}
use pepin_os.Mm.Pmm.{Pmm, alloc_page}
use pepin_os.Mm.Paging.{kernel_pd_addr, present_write, present_write_user}

-- `for (i = 0; i < 1024; i++) pt[i] = 0;`
unfoldable pub clear_table : ℕ → Memory → Memory
clear_table pt mem = for_range 1024 0 (λ i m. write32 m (pt + 4 * i) 0) mem

-- The kernel maps the first 16 MB only: on the machine a store to a table or a page from there on is a
-- page fault, which a memory that is returned here does not show.
pub map_page : (ℕ → ℕ) → (pd virt phys flags : ℕ) → Memory → Pmm → Memory × Pmm
map_page dir_entry pd virt phys flags mem pmm =
    let slot = pd + 4 * (virt / 2 ^ 22) in
    let pt_idx = bit_and (virt / 2 ^ 12) 0x3FF in
    let out = alloc_page pmm in
    let absent = bit_and (read32 mem slot) 1 == 0 in
    let mem' = if absent then write32 (clear_table out.0 mem) slot (dir_entry out.0) else mem in
    let pt = bit_and (read32 mem' slot) (not32 0xFFF) in
    (write32 mem' (pt + 4 * pt_idx) (bit_or phys flags), if absent then out.1 else pmm)

pub vmm_map_page : (virt phys flags : ℕ) → Memory → Pmm → Memory × Pmm
vmm_map_page virt phys flags mem pmm = map_page present_write kernel_pd_addr virt phys flags mem pmm

pub vmm_unmap_page : ℕ → Memory → Memory
vmm_unmap_page virt mem =
    let slot = kernel_pd_addr + 4 * (virt / 2 ^ 22) in
    let pt_idx = bit_and (virt / 2 ^ 12) 0x3FF in
    let pt = bit_and (read32 mem slot) (not32 0xFFF) in
    if bit_and (read32 mem slot) 1 == 0 then mem else write32 mem (pt + 4 * pt_idx) 0
