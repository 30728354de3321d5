-- ===== src/Fs/Elf/Exec.antt =====
-- `elf_exec` on the files that it accepts and those that it refuses.
use pepin_os.Base.{ℕ, ◌≡◌, ◌==◌, ltb, Bool, not, ◌&&◌, List}
use pepin_os.Drivers.Ide.{Drive}
use pepin_os.Fs.Ext2.{ext2_find, ext2_read_file}
use pepin_os.Fs.Elf.{Loader, max_elf_size, has_magic}

-- The tests of `elf_exec`, on what it found and read.
abbrev pub accepted : Drive → (raw : ℕ → ℕ) → List ℕ → Loader → Bool
accepted drive raw name l =
    let found = ext2_find drive 2 name raw l.fs in
    let read = ext2_read_file drive found.0 l.elf_buf max_elf_size raw found.1 in
    not (found.0 == 0) && not (ltb read.0 52) && has_magic read.1

-- What it read.
abbrev pub image : Drive → (raw : ℕ → ℕ) → List ℕ → Loader → ℕ → ℕ
image drive raw name l =
    let found = ext2_find drive 2 name raw l.fs in
    (ext2_read_file drive found.0 l.elf_buf max_elf_size raw found.1).1

-- A file that is refused leaves memory, allocator and scheduler alone.
pub record Refused (l out : Loader) : Type 0 where
  pub mem : out.mem ≡ l.mem
  pub pmm : out.pmm ≡ l.pmm
  pub sched : out.sched ≡ l.sched
