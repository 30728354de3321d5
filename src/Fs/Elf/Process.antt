-- ===== src/Fs/Elf/Process.antt =====
-- `load` of `elf_exec` as a whole: the segments, the stack, and the task.
use pepin_os.Base.{ℕ, suc, ◌+◌, ◌-◌, ◌/◌, ◌%◌, ◌^◌, ◌≤◌, ◌<◌, ◌≡◌, ◌≢◌, ltb, if◌then◌else◌}
use pepin_os.Base.Memory.{Memory}
use pepin_os.Mm.Pmm.{Pmm}
use pepin_os.Mm.Pmm.Bitmap.{used}
use pepin_os.Mm.Pmm.Valid.{IsValid}
use pepin_os.Mm.Paging.{kernel_pd_addr}
use pepin_os.Mm.Paging.Translate.{entry, translate}
use pepin_os.Mm.Vmm.Space.{IsSpace}
use pepin_os.Process.Sched.{Sched, new_task}
use pepin_os.Process.Sched.Ring.{IsValid as InOrder}
use pepin_os.Fs.Elf.{Phdr, Loader, e_entry, e_phnum, user_stack_virt}
use pepin_os.Fs.Elf.Kept.{Owned, Kept, Holds, segment_byte}
use pepin_os.Fs.Elf.Image.{Reads, Present}
use pepin_os.Fs.Elf.Program.{header, IsProgram, pages_needed, OutsideProgram}

-- The user's stack as a segment without a part of the file.
stack : Phdr
stack = record { p_type = 1; p_offset = 0; p_vaddr = user_stack_virt; p_filesz = 0; p_memsz = 4096 }

-- The page `n` is neither the stack's nor one of a segment.
abbrev pub OutsideImage : (ℕ → ℕ) → ℕ → Type 0
OutsideImage buf n = (n ≢ user_stack_virt / 4096) × OutsideProgram buf (e_phnum buf) n

-- Segments and stack are in place.
record LoadedImage (spare : ℕ) (buf : ℕ → ℕ) (pd : ℕ) (s0 s : Memory × Pmm) : Type 0 where
  space : IsSpace s.0 pd s.1
  valid : IsValid s.1
  present : (i : ℕ) → i < e_phnum buf → (header buf i).p_type ≡ 1 → Present buf (header buf i) pd s
  top : (frame : ℕ) × Holds (segment_byte buf stack user_stack_virt) pd user_stack_virt frame s
  kept : Kept pd (OutsideImage buf) s0 s
  left : spare < s.1.free_pages

-- The state that `load` needs: the kernel's address space, with its tables below 16 MB, the allocator
-- and the scheduler are in order, and there is a slot for the task.
pub record CanLoad (mem : Memory) (pmm : Pmm) (sched : Sched) : Type 0 where
  pub space : IsSpace mem kernel_pd_addr pmm
  pub valid : IsValid pmm
  pub tasks : InOrder sched
  pub slot : sched.ntasks < 8
  pub tables_low :
      (i : ℕ)
      → i < 1024
      → entry mem kernel_pd_addr i % 2 ≡ 1
      → entry mem kernel_pd_addr i < 0x100_0000

-- The file in the buffer: its segments can be loaded, share no page with each other or the stack, and
-- fit into the free pages, of which as many as there are from 16 MB on stay free.
pub record Fits (buf : ℕ → ℕ) (pmm : Pmm) : Type 0 where
  pub program : IsProgram buf (e_phnum buf)
  pub off_stack : OutsideProgram buf (e_phnum buf) (user_stack_virt / 4096)
  pub enough : pages_needed buf (e_phnum buf) + 5 + (pmm.total_pages - 4096) ≤ pmm.free_pages

-- The process as it is registered, in the next slot of the scheduler.
pub record Runs (mem : Memory) (pmm : Pmm) (sched : Sched) (buf : ℕ → ℕ) (out : Loader)
    : Type 0 where
  pub below_16mb : (i : ℕ) → used pmm i ≡ 0 → used out.pmm i ≡ 1 → i < 4096
  pub pd : ℕ
  pub pd_free : used pmm (pd / 4096) ≡ 0
  pub space : IsSpace out.mem pd out.pmm
  pub valid : IsValid out.pmm
  pub segments :
      (i : ℕ)
      → i < e_phnum buf
      → let ph = header buf i in
        ph.p_type ≡ 1
        → (a : ℕ) → ph.p_vaddr ≤ a
        → a < ph.p_vaddr + ph.p_memsz
        → Reads out.mem pd a
            (if ltb (a - ph.p_vaddr) ph.p_filesz then buf (ph.p_offset + (a - ph.p_vaddr)) else 0)
  pub stack_zeroed : (o : ℕ) → o < 4096 → Reads out.mem pd (user_stack_virt + o) 0
  pub elsewhere :
      (v : ℕ)
      → v < 2 ^ 32
      → OutsideImage buf (v / 4096)
      → translate out.mem pd v ≡ translate mem kernel_pd_addr v
  pub others :
      (frame o : ℕ)
      → frame % 4096 ≡ 0
      → o < 4096
      → Owned kernel_pd_addr frame (mem, pmm)
      → out.mem (frame + o) ≡ mem (frame + o)
  pub kstack : ℕ
  pub kstack_own : (used pmm (kstack / 4096) ≡ 0) × (used out.pmm (kstack / 4096) ≡ 1)
  pub tasks : InOrder out.sched
  pub registered : out.sched.ntasks ≡ suc sched.ntasks
  pub task :
      out.sched.pool sched.ntasks
      ≡ new_task
          (e_entry buf)
          0x23
          0x202
          (user_stack_virt + 0xFF0)
          0x33
          pd
          (kstack + 4096)
          (sched.pool sched.ntasks)
  pub other_tasks : (i : ℕ) → i ≢ sched.ntasks → out.sched.pool i ≡ sched.pool i
