-- ===== src/Boot/Start/Ready.antt =====
-- The state of the kernel in front of `elf_exec`.
use pepin_os.Base.{
  ℕ, ◌+◌, ◌-◌, ◌*◌, ◌/◌, ◌%◌, ◌≤◌, ◌<◌, ◌≡◌, refl, ap, ◌∙◌, ◌⊎◌, inl, inr, arith, ◌==◌, Bool-cases,
}
use mathlib.Core.Path.{subst}
use pepin_os.Arch.Idt.{Stubs, init_idt}
use pepin_os.Arch.Idt.Gates.{init_idt-register}
use pepin_os.Base.Memory.{Memory}
use pepin_os.Base.Text.{codes}
use pepin_os.Boot.Start.{
  Machine, banner, start_interrupts, start_memory, start_files, show_files, start_tasks,
  before_shell,
}
use pepin_os.Boot.Tasks.{Tasks, launch_tasks}
use pepin_os.Boot.Tasks.Code.{
  launch_tasks-word, launch_tasks-byte, KeepsTasks, Registered, launch_tasks-Registered,
}
use pepin_os.Drivers.Ide.{Drive}
use pepin_os.Drivers.Screen.{Screen, print}
use pepin_os.Fs.Ext2.{Ext2, ext2_set_partition, ext2_init, ext2_ls, ext2_find}
use pepin_os.Fs.Ext2.Mount.{
  SameDisk, both_SameDisk, ext2_ls-SameDisk, ext2_find-SameDisk, ext2_read_file-SameDisk,
}
use pepin_os.Fs.Vfs.Open.{vfs_init_lem}
use pepin_os.Boot.Partition.{mbr_find_partition}
use pepin_os.Fs.Elf.Kept.{Owned}
use pepin_os.Fs.Elf.Process.{CanLoad}
use pepin_os.Mm.Paging.{init_paging, kernel_pd_addr}
use pepin_os.Mm.Paging.Kernel.{init_paging-byte, entry-init_paging}
use pepin_os.Mm.Paging.Translate.{entry}
use pepin_os.Mm.Pmm.{init}
use pepin_os.Mm.Pmm.Valid.{IsValid, init_lem}
use pepin_os.Mm.Vmm.Space.{entries-IsSpace}
use pepin_os.Mm.Vmm.Kernel.{init_paging-IsSpace}
use pepin_os.Process.Sched.Ring.{IsValid as InOrder}

-- The memory behind `init_paging`.
abbrev pub paged : Stubs → Machine → Memory
paged stubs m = (init_paging (init_idt stubs m.kidt m.mem).2).1

-- The file system as it is mounted.
abbrev pub mounted_fs : Drive → (raw : ℕ → ℕ → ℕ) → Machine → Ext2
mounted_fs drive raw m =
    (ext2_init drive (raw 1) (ext2_set_partition (mbr_find_partition drive (raw 0)) m.vfs.fs)).0

-- What `elf_exec` finds: the first two tasks are in memory and registered.
pub record Ready (stubs : Stubs) (drive : Drive) (raw : ℕ → ℕ → ℕ) (user_task user_task_b : ℕ)
    (m b : Machine) : Type 0 where
  pub screen : Screen
  pub mem :
      b.mem
      ≡ (launch_tasks user_task user_task_b
          (record { mem = paged stubs m; sched = m.sched; screen = screen; ktss = m.ktss })).mem
  pub pmm : b.pmm ≡ init (32 * 1024 * 1024) m.pmm
  pub tasks : Registered m.sched b.sched
  pub files : SameDisk (mounted_fs drive raw m) b.vfs.fs
  pub nodes : (i : ℕ) → i < 8 → (b.vfs.node_pool i).used ≡ 0
  pub gdtr : b.gdtr ≡ m.gdtr
  pub idtr : (b.idtr.limite ≡ 2048) × (b.idtr.base ≡ 0x500)

started_files :
    (drive : Drive) (raw : ℕ → ℕ → ℕ) (m : Machine)
    → ((start_files drive raw m).vfs.fs ≡ mounted_fs drive raw m)
      × ((i : ℕ) → i < 8 → ((start_files drive raw m).vfs.node_pool i).used ≡ 0)
unfolding start_files
started_files drive raw m = vfs_init_lem (record (m.vfs) { fs = mounted_fs drive raw m })

shown_files :
    (drive : Drive) (raw : ℕ → ℕ → ℕ) (m : Machine)
    → SameDisk m.vfs.fs (show_files drive raw m).vfs.fs
unfolding show_files
shown_files drive raw m =
    let root = ext2_ls drive 2 (raw 2) m.vfs.fs in
    let found = ext2_find drive 2 (codes "hola.txt") (raw 3) root.1 in
    let searched =
      both_SameDisk (ext2_ls-SameDisk drive 2 (raw 2) m.vfs.fs)
        (ext2_find-SameDisk drive 2 (codes "hola.txt") (raw 3) root.1) in
    elim (Bool-cases (found.0 == 0)) [
      | inl missing ↦ rw missing searched
      | inr there ↦ rw there (
          both_SameDisk searched
            (ext2_read_file-SameDisk drive found.0 m.content 127 (raw 4) found.1))
    ]

pub before_shell-Ready :
    (stubs : Stubs) (drive : Drive) (raw : ℕ → ℕ → ℕ) (user_task user_task_b : ℕ) (m : Machine)
    → InOrder m.sched
    → m.sched.ntasks ≡ 0
    → Ready stubs drive raw user_task user_task_b m
        (before_shell stubs drive raw user_task user_task_b m)
unfolding before_shell start_tasks show_files start_files start_memory start_interrupts
before_shell-Ready stubs drive raw user_task user_task_b m v e =
    let ready = start_memory (start_interrupts stubs (record m { screen = banner m.screen })) in
    let mounted = start_files drive raw ready in
    let shown = show_files drive raw mounted in
    let screen = print (codes "Iniciando multitarea:\n") shown.screen in
    let files = started_files drive raw ready in
    record {
      screen = screen;
      mem = refl;
      pmm = refl;
      tasks =
          launch_tasks-Registered user_task user_task_b
            (record { mem = paged stubs m; sched = m.sched; screen = screen; ktss = m.ktss }) v e;
      files = subst (λ (f : Ext2). SameDisk f shown.vfs.fs) files.0 (shown_files drive raw mounted);
      nodes = files.1;
      gdtr = refl;
      idtr = init_idt-register stubs m.kidt m.mem;
    }

module _ {stubs : Stubs} {drive : Drive} {raw : ℕ → ℕ → ℕ} {user_task user_task_b : ℕ}
    {m b : Machine} (ha : user_task + 1024 ≤ 0x20_0000) (hb : user_task_b + 1024 ≤ 0x20_0000)
    (r : Ready stubs drive raw user_task user_task_b m b) where
  abbrev pub launched : Tasks
  launched = record { mem = paged stubs m; sched = m.sched; screen = r.screen; ktss = m.ktss }

  directory :
      (i : ℕ) → i < 1024 → entry b.mem kernel_pd_addr i ≡ entry (paged stubs m) kernel_pd_addr i
  directory i h =
      ap (λ (x : Memory). entry x kernel_pd_addr i) r.mem
      ∙ launch_tasks-word user_task user_task_b launched (kernel_pd_addr + 4 * i) ha hb
          (omega arith) (omega (arith, h))

  valid : IsValid b.pmm
  valid = rw r.pmm (init_lem (32 * 1024 * 1024) m.pmm).0

  pub ready-CanLoad : CanLoad b.mem b.pmm b.sched
  ready-CanLoad = record {
    space =
        entries-IsSpace (init_paging-IsSpace (init_idt stubs m.kidt m.mem).2 b.pmm valid) directory
          b.pmm (λ i h. h);
    valid = valid;
    tasks = r.tasks.in_order;
    slot = omega (arith, r.tasks.two);
    tables_low = λ i h p.
        let old = directory i h ∙ entry-init_paging (init_idt stubs m.kidt m.mem).2 i h in
        ground (arith, old, p);
  }

  -- The pages below 4 MB that are not the kernel's tables.
  low-Owned :
      (frame : ℕ)
      → frame % 4096 ≡ 0
      → (frame < 0x20_0000) ⊎ (0x20_5000 ≤ frame)
      → frame < 0x40_0000
      → Owned kernel_pd_addr frame (b.mem, b.pmm)
  low-Owned frame ha lo hi = record {
    taken = valid.reserved (frame / 4096) (omega (arith, hi));
    off_directory = λ e. ground (arith, e, lo, ha);
    off_tables = λ i h p e.
        let old = directory i h ∙ entry-init_paging (init_idt stubs m.kidt m.mem).2 i h in
        ground (arith, old, p, e, lo, ha);
  }

  -- A memory that keeps such pages.
  pub keeps_tasks :
      (out : Memory)
      → ((frame o : ℕ)
          → frame % 4096 ≡ 0
          → o < 4096
          → Owned kernel_pd_addr frame (b.mem, b.pmm)
          → out (frame + o) ≡ b.mem (frame + o))
      → KeepsTasks (launch_tasks user_task user_task_b launched).mem out
  keeps_tasks out others =
      let same : (a : ℕ)
          → 0x20_5000 ≤ a
          → a < 0x40_0000
          → out a ≡ (launch_tasks user_task user_task_b launched).mem a =
        λ a lo hi.
          let e : a - a % 4096 + a % 4096 ≡ a = omega arith in
          rw e at (
            others (a - a % 4096) (a % 4096) (omega arith) (omega arith) (
              low-Owned (a - a % 4096) (omega arith) (inr (omega (arith, lo))) (omega (arith, hi))))
          ∙ ap (λ (x : Memory). x a) r.mem in
      record {
        spaces = λ a lo hi. same a lo (omega (arith, hi));
        codes = λ a lo hi. same a (omega (arith, lo)) (omega (arith, hi));
      }

  pub low_kept :
      (out : Memory) (a : ℕ)
      → ((frame o : ℕ)
          → frame % 4096 ≡ 0
          → o < 4096
          → Owned kernel_pd_addr frame (b.mem, b.pmm)
          → out (frame + o) ≡ b.mem (frame + o))
      → a < 0x20_0000
      → out a ≡ (init_idt stubs m.kidt m.mem).2 a
  low_kept out a others h =
      let e : a - a % 4096 + a % 4096 ≡ a = omega arith in
      rw e at (
        others (a - a % 4096) (a % 4096) (omega arith) (omega arith)
          (low-Owned (a - a % 4096) (omega arith) (inl (omega (arith, h))) (omega (arith, h))))
      ∙ ap (λ (x : Memory). x a) r.mem
      ∙ launch_tasks-byte user_task user_task_b launched a ha hb h
      ∙ init_paging-byte (init_idt stubs m.kidt m.mem).2 a h
