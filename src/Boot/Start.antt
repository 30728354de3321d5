-- ===== src/Boot/Start.antt =====
-- kernel/kernel.c: `_start` and `kmain`, up to the call of `sched_enter`. The address of the TSS and of
-- the tasks' code, and the stubs of the interrupts, are parameters; `raw k` stands for what the
-- local variables of the k-th call hold before they are written. No interrupt comes in between, and the
-- commands to the interrupt controllers are apart, in Arch.Pic.
pub mod Ready
pub mod Booted
mod Tests
use pepin_os.Base.{
  ℕ, zero, suc, ◌+◌, ◌-◌, ◌*◌, ◌/◌, ◌%◌, ◌^◌, ◌≤◌, ◌<◌, ◌≡◌, refl, sym, ap, ◌∙◌, ◌≢◌, ◌⊎◌, inl, inr,
  arith, ◌==◌, ltb, leb, min, max, bit_and, bit_or, Bool, true, false, not, ◌&&◌, ◌||◌, Option,
  none, some, List, [], ◌∷◌, ◌++◌, map, if◌then◌else◌, for_range, update, for_range-update,
  update_self, length, get_elem?, length-append, Bool-cases, Option-cases, u32_mod, add32, sub32,
  mul32, shl32, shl32-one, pow-lt-u32, ltb→lt, lt→ltb, ltb→le, ==_iff,
}
use pepin_os.Arch.Gdt.{Gdtr, init_gdt}
use pepin_os.Arch.Idt.{Stubs, IdtDesc, Idtr, init_idt}
use pepin_os.Base.Int.{pos}
use pepin_os.Base.Memory.{Memory}
use pepin_os.Base.Text.{codes, until_nul, bytes_of}
use pepin_os.Boot.Partition.{mbr_find_partition}
use pepin_os.Boot.Tasks.{Tasks, launch_tasks}
use pepin_os.Drivers.Ide.{Drive}
use pepin_os.Drivers.Screen.{Screen, print}
use pepin_os.Fs.Elf.{Loader, elf_exec}
use pepin_os.Fs.Ext2.{ext2_set_partition, ext2_init, ext2_ls, ext2_find, ext2_read_file}
use pepin_os.Fs.Vfs.{Vfs, vfs_init}
use pepin_os.Mm.Paging.{init_paging}
use pepin_os.Mm.Pmm.{Pmm, init}
use pepin_os.Process.Sched.{Sched}

-- The memory, the variables of the drivers, and the registers that the start loads.
pub record Machine : Type 0 where
  pub screen : Screen
  pub mem : Memory
  pub gdtr : Gdtr
  pub idtr : Idtr
  pub kidt : ℕ → IdtDesc
  pub cr3 : ℕ
  pub pmm : Pmm
  pub vfs : Vfs
  pub content : ℕ → ℕ
  pub elf_buf : ℕ → ℕ
  pub sched : Sched
  pub ktss : ℕ → ℕ

abbrev print_texts : List (List ℕ) → Screen → Screen
print_texts [] s = s
print_texts (t ∷ ts) s = print_texts ts (print t s)

-- `kattr = attr;` and the texts behind it.
abbrev coloured : ℕ → List (List ℕ) → Screen → Screen
coloured attr ts s = print_texts ts (record s { kattr = attr })

pub banner : Screen → Screen
banner s =
    let top = coloured 0x0F (codes "================================\n" ∷ []) s in
    let name = coloured 0x0B (codes "  PepinOS Paso 23 - Shell Interactivo\n" ∷ []) top in
    let bottom = coloured 0x0F (codes "================================\n\n" ∷ []) name in
    coloured 0x07 (codes "  [OK] GDT con ring 3 y TSS\n" ∷ []) bottom

-- `init_idt`, and `init_keyboard`, which is empty.
pub start_interrupts : Stubs → Machine → Machine
start_interrupts stubs m =
    let out = init_idt stubs m.kidt m.mem in
    record m {
      idtr = out.0;
      kidt = out.1;
      mem = out.2;
      screen =
          print_texts (codes "  [OK] IDT lista\n" ∷ codes "  [OK] Interrupciones activas\n" ∷ [])
            m.screen;
    }

-- `init_paging`, `pmm_init` and `vmm_init`, which is empty.
pub start_memory : Machine → Machine
start_memory m =
    let out = init_paging m.mem in
    record m {
      cr3 = out.0;
      mem = out.1;
      pmm = init (32 * 1024 * 1024) m.pmm;
      screen =
          print_texts
            (codes "  [OK] Paginacion kernel activa\n"
              ∷ codes "  [OK] PMM: memoria fisica lista\n"
              ∷ codes "  [OK] VMM: listo\n"
              ∷ [])
            m.screen;
    }

-- The partition, ext2, and the pool of nodes.
pub start_files : Drive → (raw : ℕ → ℕ → ℕ) → Machine → Machine
start_files drive raw m =
    let lba = mbr_find_partition drive (raw 0) in
    let out = ext2_init drive (raw 1) (ext2_set_partition lba m.vfs.fs) in
    record m {
      vfs = vfs_init (record (m.vfs) { fs = out.0 });
      screen = print_texts (out.1 ∷ codes "  [OK] VFS: listo\n" ∷ []) m.screen;
    }

-- The root directory, and the first bytes of hola.txt.
pub show_files : Drive → (raw : ℕ → ℕ → ℕ) → Machine → Machine
show_files drive raw m =
    let root = ext2_ls drive 2 (raw 2) m.vfs.fs in
    let found = ext2_find drive 2 (codes "hola.txt") (raw 3) root.1 in
    let read = ext2_read_file drive found.0 m.content 127 (raw 4) found.1 in
    let content = update read.1 read.0 0 in
    let listed = print_texts (codes "  [Ext2] Directorio raiz:\n" ∷ root.0 ∷ []) m.screen in
    let text = until_nul (bytes_of 128 content) in
    record m {
      vfs = record (m.vfs) { fs = if found.0 == 0 then found.1 else read.2 };
      content = if found.0 == 0 then m.content else content;
      screen = print (codes "\n") (
          if found.0 == 0
          then listed
          else print_texts (codes "  [Ext2] hola.txt: " ∷ text ∷ []) listed);
    }

-- The first two tasks.
pub start_tasks : (user_task user_task_b : ℕ) → Machine → Machine
start_tasks user_task user_task_b m =
    let out = launch_tasks user_task user_task_b (record {
      mem = m.mem;
      sched = m.sched;
      screen = print (codes "Iniciando multitarea:\n") m.screen;
      ktss = m.ktss;
    }) in
    record m { mem = out.mem; sched = out.sched; screen = out.screen; ktss = out.ktss }

-- `elf_exec("shell.elf")`.
pub loader_of : Machine → Loader
loader_of m = record {
  mem = m.mem;
  pmm = m.pmm;
  fs = m.vfs.fs;
  elf_buf = m.elf_buf;
  sched = m.sched;
  screen = m.screen;
}

pub start_shell : Drive → (raw : ℕ → ℕ → ℕ) → Machine → Machine
start_shell drive raw m =
    let out = elf_exec drive (raw 5) (codes "shell.elf") (loader_of m) in
    record m {
      mem = out.mem;
      pmm = out.pmm;
      vfs = record (m.vfs) { fs = out.fs };
      elf_buf = out.elf_buf;
      sched = out.sched;
      screen = out.screen;
    }

-- The part of `kmain` in front of the shell.
pub before_shell :
    Stubs → Drive → (raw : ℕ → ℕ → ℕ) → (user_task user_task_b : ℕ) → Machine → Machine
before_shell stubs drive raw user_task user_task_b m =
    let ready = start_memory (start_interrupts stubs (record m { screen = banner m.screen })) in
    start_tasks user_task user_task_b (show_files drive raw (start_files drive raw ready))

pub kmain : Stubs → Drive → (raw : ℕ → ℕ → ℕ) → (user_task user_task_b : ℕ) → Machine → Machine
kmain stubs drive raw user_task user_task_b m =
    start_shell drive raw (before_shell stubs drive raw user_task user_task_b m)

pub start :
    (ktss_addr : ℕ)
    → Stubs
    → Drive
    → (raw : ℕ → ℕ → ℕ) → (user_task user_task_b : ℕ) → Machine
    → Machine
start ktss_addr stubs drive raw user_task user_task_b m =
    let shown =
      print (codes "PepinOS: iniciando...\n") (record (m.screen) { ky = pos 0; kattr = 0x0A }) in
    let out = init_gdt ktss_addr m.mem in
    kmain stubs drive raw user_task user_task_b
      (record m { screen = shown; gdtr = out.0; mem = out.1 })
