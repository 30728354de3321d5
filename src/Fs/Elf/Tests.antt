-- ===== src/Fs/Elf/Tests.antt =====
-- The loader at concrete inputs: the kernel's directory as `init_paging` leaves it, a machine with
-- 16 pages above the first 4 MB, and a program, in the buffer and in a file.
use pepin_os.Base.{ℕ, ◌+◌, ◌*◌, ◌^◌, ◌≡◌, refl, ◌==◌, true, if◌then◌else◌}
use pepin_os.Base.Memory.{Memory}
use pepin_os.Base.Int.{pos}
use pepin_os.Base.Text.{codes}
use pepin_os.Drivers.Ide.{Drive}
use pepin_os.Fs.Ext2.{ext2_read_inode, ext2_find}
use pepin_os.Mm.Pmm.{Pmm, init}
use pepin_os.Mm.Paging.{init_paging}
use pepin_os.Process.Sched.{empty}
use pepin_os.Process.Task.{Task, closed}
use pepin_os.Fs.Elf.{has_magic, Loader}
use pepin_os.Drivers.Ide.{Drive, ide_read_sector, ide_select_sector}
use pepin_os.Fs.Ext2.{
  ext2_find, ext2_read_inode, ext2_read_block, ext2_read_file, read_file_from, find_from,
  match_name,
}
use pepin_os.Fs.Elf.Sample.{program}
use pepin_os.Fs.Elf.Exec.{accepted, image}

abbrev paged : Memory
paged = (init_paging (λ _. 0)).1

abbrev zeroed : Pmm
zeroed = record { bitmap = λ _. 0; total_pages = 0; free_pages = 0 }

abbrev machine : Pmm
machine = init 0x41_0000 zeroed

blank : Task
blank = record {
  regs = λ _. 0;
  cr3 = 0;
  kstack_top = 0;
  active = 0;
  files = λ _. closed;
  sig_pending = 0;
  sig_handlers = λ _. 0;
  sig_saved_regs = λ _. 0;
  sig_in_handler = 0;
}

abbrev started : Loader
started = record {
  mem = paged;
  pmm = machine;
  fs = record {
    block_size = 1024;
    inode_size = 128;
    inodes_per_group = 32;
    bgd = λ _. 0;
    part_lba = 0;
    blk_a = λ _. 0;
    blk_b = λ _. 0;
  };
  elf_buf = program;
  sched = empty (record { next = λ _. 0; prev = λ _. 0 }) (λ _. blank);
  screen = record { video = λ _. 0; kx = pos 0; ky = pos 0; kattr = 7; cursor = 0 };
}

-- A disk with the program in the file `sh`: the root directory is in block 7, the file in block 9.
abbrev disk : Drive
disk sector word =
    if sector == 0
    then (if word == 66
        then 1024
        else if word == 84
        then 7
        else if word == 130
        then 116
        else if word == 148
        then 9
        else 0)
    else if sector == 14
    then (if word == 0
        then 3
        else if word == 2
        then 1024
        else if word == 3
        then 2
        else if word == 4
        then 0x6873
        else 0)
    else if sector == 18
    then program (2 * word) + 2 ^ 8 * program (2 * word + 1)
    else 0

abbrev zeros : ℕ → ℕ
zeros _ = 0

abbrev empty_buffer : Loader
empty_buffer = record started { elf_buf = zeros }

abbrev from_file : ℕ → ℕ
from_file = image disk zeros (codes "sh") empty_buffer

sh_accepted : accepted disk zeros (codes "sh") empty_buffer ≡ true
unfolding ext2_find ext2_read_inode ext2_read_block ext2_read_file read_file_from find_from
    match_name ide_read_sector ide_select_sector has_magic
sh_accepted = refl
