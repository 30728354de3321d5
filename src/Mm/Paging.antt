-- ===== src/Mm/Paging.antt =====
-- mm/paging.c and mm/paging.h: the kernel's page tables and the address spaces of the first tasks,
-- in physical memory, which the kernel reaches at equal virtual addresses. Loading CR3 and CR0 is
-- inline assembly; the functions return the value for CR3.
pub mod Translate
pub mod Kernel
pub mod Space
pub mod Task
mod Tests
use pepin_os.Base.{
  ℕ, zero, suc, ◌+◌, ◌-◌, ◌*◌, ◌/◌, ◌%◌, ◌^◌, ◌≤◌, ◌<◌, ◌≡◌, refl, sym, ap, ◌∙◌, ◌≢◌, ◌⊎◌, inl, inr,
  arith, ◌==◌, ltb, leb, min, max, bit_and, bit_or, Bool, true, false, not, ◌&&◌, ◌||◌, Option,
  none, some, List, [], ◌∷◌, ◌++◌, map, if◌then◌else◌, for_range, update, for_range-update,
  update_self, length, get_elem?, length-append, Bool-cases, Option-cases, u32_mod, add32, sub32,
  mul32, shl32, shl32-one, pow-lt-u32, ltb→lt, lt→ltb, ltb→le, ==_iff,
}
use pepin_os.Base.Memory.{Memory, read32, write32}

abbrev pub kernel_pd_addr : ℕ
kernel_pd_addr = 0x20_0000

abbrev pub kernel_pt_addr : ℕ
kernel_pt_addr = 0x20_1000

abbrev pub kernel_virtual : ℕ
kernel_virtual = 0xC000_0000

-- `a | PAGE_PRESENT | PAGE_WRITE`
abbrev pub present_write : ℕ → ℕ
present_write a = bit_or (bit_or a 1) 2

-- `a | PAGE_PRESENT | PAGE_WRITE | PAGE_USER`
abbrev pub present_write_user : ℕ → ℕ
present_write_user a = bit_or (present_write a) 4

pub memzero : ℕ → ℕ → Memory → Memory
memzero ptr size mem = for_range size 0 (λ i m. update m (ptr + i) 0) mem

-- The second loop of `init_paging`, with the variable `addr`.
pub identity_tables : Memory → Memory × ℕ
identity_tables mem =
    for_range (4 * 1024) 0
      (λ i s. (write32 s.0 (kernel_pt_addr + 4 * i) (present_write_user s.1), add32 s.1 0x1000))
      (mem, 0)

-- The value for CR3, and memory.
pub init_paging : Memory → ℕ × Memory
init_paging mem =
    let tables = (identity_tables (memzero kernel_pd_addr 4096 mem)).0 in
    (
      kernel_pd_addr,
      for_range 4 0
          (λ i m.
            write32 m (kernel_pd_addr + 4 * i) (present_write_user (kernel_pt_addr + 4096 * i)))
          tables,
    )

pub create_task_space :
    (task_code_phys task_stack_phys task_code_virt task_stack_virt pd_addr pt_addr : ℕ)
    → Memory
    → Memory
create_task_space code_phys stack_phys code_virt stack_virt pd_addr pt_addr mem =
    let cleared = memzero pt_addr 4096 (memzero pd_addr 4096 mem) in
    let code_idx = bit_and (code_virt / 2 ^ 12) 0x3FF in
    let stack_idx = bit_and (stack_virt / 2 ^ 12) 0x3FF in
    let code_dir = code_virt / 2 ^ 22 in
    let m1 = write32 cleared (pt_addr + 4 * code_idx) (present_write_user code_phys) in
    let m2 = write32 m1 (pt_addr + 4 * stack_idx) (present_write_user stack_phys) in
    let m3 = write32 m2 (pd_addr + 4 * code_dir) (present_write_user pt_addr) in
    let m4 =
      for_range 4 0 (λ i m. write32 m (pd_addr + 4 * i) (read32 m (kernel_pd_addr + 4 * i))) m3 in
    let kv_dir : ℕ = kernel_virtual / 2 ^ 22 in
    for_range 4 0
      (λ i m. write32 m (pd_addr + 4 * (kv_dir + i)) (present_write (kernel_pt_addr + 4096 * i))) m4

-- The value for CR3.
pub switch_to_kernel_space : ℕ
switch_to_kernel_space = kernel_pd_addr
