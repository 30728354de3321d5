-- ===== src/Fs/Elf.antt =====
-- fs/elf.c and fs/elf.h: loading a program into an address space of its own. `elf_buf` is apart from
-- the pages of the allocator. `raw` stands for what the local variables of a function hold before
-- they are written.
pub mod Directory
pub mod Apart
pub mod Fill
pub mod Part
pub mod Page
pub mod Kept
pub mod Segment
pub mod Program
pub mod Allocs
pub mod Process
pub mod Exec
pub mod Sample
pub mod Image
mod Tests
use pepin_os.Base.{
  ℕ, zero, suc, ◌+◌, ◌-◌, ◌*◌, ◌/◌, ◌%◌, ◌^◌, ◌≤◌, ◌<◌, ◌≡◌, refl, sym, ap, ◌∙◌, ◌≢◌, ◌⊎◌, inl, inr,
  arith, ◌==◌, ltb, leb, min, max, bit_and, bit_or, Bool, true, false, not, ◌&&◌, ◌||◌, Option,
  none, some, List, [], ◌∷◌, ◌++◌, map, if◌then◌else◌, for_range, update, for_range-update,
  update_self, length, get_elem?, length-append, Bool-cases, Option-cases, u32_mod, add32, sub32,
  mul32, shl32, shl32-one, pow-lt-u32, ltb→lt, lt→ltb, ltb→le, ==_iff,
}
use pepin_os.Base.Bits.{not32}
use pepin_os.Base.Memory.{Memory, read32, write32}
use pepin_os.Base.Text.{codes, le16}
use pepin_os.Drivers.Ide.{Drive}
use pepin_os.Drivers.Screen.{Screen, print}
use pepin_os.Fs.Ext2.{Ext2, ext2_find, ext2_read_file}
use pepin_os.Mm.Pmm.{Pmm, alloc_page}
use pepin_os.Mm.Paging.{kernel_pd_addr, present_write_user}
use pepin_os.Mm.Vmm.{map_page}
use pepin_os.Process.Sched.{Sched, sched_add_task}

abbrev pub max_elf_size : ℕ
max_elf_size = 65536

abbrev pub user_stack_virt : ℕ
user_stack_virt = 0x4010_0000

-- PG_PRESENT | PG_WRITE | PG_USER
abbrev pub pg_all : ℕ
pg_all = bit_or (bit_or 1 2) 4

-- The fields of the header that are used.
abbrev pub e_entry : (ℕ → ℕ) → ℕ
e_entry buf = read32 buf 24

abbrev pub e_phoff : (ℕ → ℕ) → ℕ
e_phoff buf = read32 buf 28

abbrev pub e_phentsize : (ℕ → ℕ) → ℕ
e_phentsize buf = le16 buf 42

abbrev pub e_phnum : (ℕ → ℕ) → ℕ
e_phnum buf = le16 buf 44

-- The fields that are used of a program header.
pub record Phdr : Type 0 where
  pub p_type : ℕ
  pub p_offset : ℕ
  pub p_vaddr : ℕ
  pub p_filesz : ℕ
  pub p_memsz : ℕ

unfoldable pub phdr_at : (ℕ → ℕ) → ℕ → Phdr
phdr_at buf a = record {
  p_type = read32 buf a;
  p_offset = read32 buf (a + 4);
  p_vaddr = read32 buf (a + 8);
  p_filesz = read32 buf (a + 16);
  p_memsz = read32 buf (a + 20);
}

-- The address of the new directory, memory, and the allocator.
pub proc_alloc_pd : Memory → Pmm → ℕ × Memory × Pmm
proc_alloc_pd mem pmm =
    let out = alloc_page pmm in
    (
      out.0,
      for_range 1024 0 (λ i m. write32 m (out.0 + 4 * i) (read32 m (kernel_pd_addr + 4 * i))) mem,
      out.1,
    )

pub proc_map_page : (pd_phys virt phys flags : ℕ) → Memory → Pmm → Memory × Pmm
proc_map_page pd_phys virt phys flags mem pmm =
    map_page present_write_user pd_phys virt phys flags mem pmm

-- `for (j = 0; j < 4096; j++) fp[j] = 0;`
pub zero_page : ℕ → Memory → Memory
zero_page fp mem = for_range 4096 0 (λ j m. update m (fp + j) 0) mem

-- `for (j = 0; j < bytes; j++) fp[j] = elf_buf[src_off + j];`
pub copy_bytes : (fp bytes src_off : ℕ) → (ℕ → ℕ) → Memory → Memory
copy_bytes fp bytes src_off buf mem =
    for_range bytes 0 (λ j m. update m (fp + j) (buf (add32 src_off j))) mem

-- The page's bytes of the file: how many, and from where.
pub file_part : Phdr → ℕ → ℕ × ℕ
file_part ph vaddr =
    let src_off = add32 ph.p_offset (sub32 vaddr ph.p_vaddr) in
    let avail = sub32 (add32 ph.p_offset ph.p_filesz) src_off in
    if ltb vaddr (add32 ph.p_vaddr ph.p_filesz)
    then (if ltb avail 4096 then avail else 4096, src_off)
    else (0, src_off)

-- One round of the loop over the pages of a segment. As for `map_page`, the stores to a page from 16 MB
-- on would be page faults.
pub load_page : (ℕ → ℕ) → Phdr → (pd_phys vaddr : ℕ) → Memory × Pmm → Memory × Pmm
load_page buf ph pd_phys vaddr (mem, pmm) =
    let out = alloc_page pmm in
    let part = file_part ph vaddr in
    let mem' = copy_bytes out.0 part.0 part.1 buf (zero_page out.0 mem) in
    proc_map_page pd_phys vaddr out.0 pg_all mem' out.1

-- The loop, whose bounds are multiples of 4096.
pub load_segment : (ℕ → ℕ) → Phdr → (pd_phys : ℕ) → Memory × Pmm → Memory × Pmm
load_segment buf ph pd_phys s =
    let vbase = bit_and ph.p_vaddr (not32 0xFFF) in
    let vend = bit_and (add32 (add32 ph.p_vaddr ph.p_memsz) 0xFFF) (not32 0xFFF) in
    for_range ((vend - vbase) / 4096) 0 (λ k. load_page buf ph pd_phys (vbase + 4096 * k)) s

-- The loop over the program headers.
pub load_segments : (ℕ → ℕ) → (pd_phys : ℕ) → Memory × Pmm → Memory × Pmm
load_segments buf pd_phys s =
    for_range (e_phnum buf) 0
      (λ i t.
        let ph = phdr_at buf (add32 (e_phoff buf) (mul32 i (e_phentsize buf))) in
        if ph.p_type == 1 then load_segment buf ph pd_phys t else t)
      s

-- The page of the user's stack.
pub map_stack : (pd_phys : ℕ) → Memory × Pmm → Memory × Pmm
map_stack pd_phys (mem, pmm) =
    let out = alloc_page pmm in
    proc_map_page pd_phys user_stack_virt out.0 pg_all (zero_page out.0 mem) out.1

pub record Loader : Type 0 where
  pub mem : Memory
  pub pmm : Pmm
  pub fs : Ext2
  pub elf_buf : ℕ → ℕ
  pub sched : Sched
  pub screen : Screen

-- `print` of each text.
abbrev print_texts : List (List ℕ) → Screen → Screen
print_texts [] s = s
print_texts (t ∷ ts) s = print_texts ts (print t s)

-- `e_ident` begins with the four bytes of the magic.
unfoldable pub has_magic : (ℕ → ℕ) → Bool
has_magic buf = (buf 0 == 0x7F) && (buf 1 == b'E') && (buf 2 == b'L') && (buf 3 == b'F')

-- The part of `elf_exec` behind the tests.
pub load : List ℕ → Loader → Loader
load name l =
    let pd = proc_alloc_pd l.mem l.pmm in
    let out = map_stack pd.0 (load_segments l.elf_buf pd.0 (pd.1, pd.2)) in
    let kstack = alloc_page out.1 in
    record l {
      mem = out.0;
      pmm = kstack.1;
      sched =
          sched_add_task (e_entry l.elf_buf) 0x23 0x202 (user_stack_virt + 0xFF0) 0x33 pd.0
            (add32 kstack.0 4096) l.sched;
      screen =
          print_texts
            (codes "  [OK] ELF: '" ∷ name ∷ codes "' cargado y registrado en el scheduler\n" ∷ [])
            l.screen;
    }

pub elf_exec : Drive → (raw : ℕ → ℕ) → List ℕ → Loader → Loader
elf_exec drive raw name l =
    let found = ext2_find drive 2 name raw l.fs in
    let read = ext2_read_file drive found.0 l.elf_buf max_elf_size raw found.1 in
    let l' = record l { elf_buf = read.1; fs = read.2 } in
    if found.0 == 0
    then record l {
      fs = found.1;
      screen =
          print_texts (codes "  [!!] ELF: archivo no encontrado: " ∷ name ∷ codes "\n" ∷ [])
            l.screen;
    }
    else if ltb read.0 52
    then record l' { screen = print (codes "  [!!] ELF: archivo demasiado pequeno\n") l.screen }
    else if not (has_magic read.1)
    then record l' { screen = print (codes "  [!!] ELF: magic invalido\n") l.screen }
    else load name l'
