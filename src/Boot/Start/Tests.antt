-- ===== src/Boot/Start/Tests.antt =====
-- The start on an ext2 disk with blocks of 1024 bytes and a program in the file `shell.elf`.
use pepin_os.Base.{ℕ, ◌+◌, ◌*◌, ◌%◌, ◌^◌, ◌≡◌, refl, ◌==◌, true, if◌then◌else◌}
use pepin_os.Arch.Gdt.Segments.{Segments}
use pepin_os.Arch.Idt.{Stubs}
use pepin_os.Base.Int.{pos}
use pepin_os.Base.Text.{codes}
use pepin_os.Boot.Start.{Machine, before_shell}
use pepin_os.Boot.Start.Ready.{Ready}
use pepin_os.Boot.Start.Booted.{Booted, entered}
use pepin_os.Drivers.Ide.{Drive, ide_read_sector, ide_select_sector}
use pepin_os.Fs.Ext2.{ext2_read_inode, ext2_find, ext2_init, ext2_set_partition, ext2_read_block}
use pepin_os.Drivers.Ide.{ide_read_sector, ide_select_sector}
use pepin_os.Fs.Ext2.{
  ext2_find, ext2_read_inode, ext2_read_block, ext2_read_file, read_file_from, find_from,
  match_name,
}
use pepin_os.Fs.Elf.{has_magic, Loader}
use pepin_os.Fs.Elf.Exec.{accepted}
use pepin_os.Fs.Elf.Sample.{program}
use pepin_os.Fs.Vfs.{no_read}
use pepin_os.Process.Task.{Task, closed}
use pepin_os.Process.Sched.{empty}

-- The superblock has the magic and the first block of data, which is 1, and the inodes stand in block 0:
-- the root directory is in block 7, and its file `shell.elf` in block 9.
abbrev disk : Drive
disk sector word =
    if sector == 0
    then (if word == 66
        then 1024
        else if word == 84
        then 7
        else if word == 130
        then 116
        else if word == 148
        then 9
        else 0)
    else if sector == 2
    then (if word == 28 then 0xEF53 else if word == 10 then 1 else 0)
    else if sector == 14
    then (if word == 0
        then 3
        else if word == 2
        then 1024
        else if word == 3
        then 9
        else if word == 4
        then 0x6873
        else if word == 5
        then 0x6C65
        else if word == 6
        then 0x2E6C
        else if word == 7
        then 0x6C65
        else if word == 8
        then 0x66
        else 0)
    else if sector == 18
    then program (2 * word) + 2 ^ 8 * program (2 * word + 1)
    else 0

blank : Task
blank = record {
  regs = λ _. 0;
  cr3 = 0;
  kstack_top = 0;
  active = 0;
  files = λ _. closed;
  sig_pending = 0;
  sig_handlers = λ _. 0;
  sig_saved_regs = λ _. 0;
  sig_in_handler = 0;
}

abbrev zeros : ℕ → ℕ
zeros _ = 0

-- The variables of the kernel as they are loaded.
abbrev loaded : Machine
loaded = record {
  screen = record { video = zeros; kx = pos 0; ky = pos 0; kattr = 7; cursor = 0 };
  mem = λ a. a % 256;
  gdtr = record { limite = 0; base = 0 };
  idtr = record { limite = 0; base = 0 };
  kidt = λ _. record { offset0_15 = 0; select = 0; type = 0; offset16_31 = 0 };
  cr3 = 0;
  pmm = record { bitmap = zeros; total_pages = 0; free_pages = 0 };
  vfs = record {
    node_pool =
        λ _. record { name = zeros; flags = 0; inode = 0; length = 0; read = no_read; used = 1 };
    fs = record {
      block_size = 0;
      inode_size = 0;
      inodes_per_group = 0;
      bgd = zeros;
      part_lba = 0;
      blk_a = zeros;
      blk_b = zeros;
    };
  };
  content = zeros;
  elf_buf = zeros;
  sched = empty (record { next = zeros; prev = zeros }) (λ _. blank);
  ktss = zeros;
}

abbrev raw : ℕ → ℕ → ℕ
raw k a = 0

abbrev stubs : Stubs
stubs = record {
  default = 0x1000;
  div0 = 0x1100;
  isr = λ i. 0x2000 + 16 * i;
  gpf = 0x1200;
  pagefault = 0x1300;
  irq = λ i. 0x3000 + 16 * i;
  syscall = 0x1400;
}

abbrev before : Machine
before = before_shell stubs disk raw 0x1_2000 0x1_3000 (entered 0x11_5000 loaded)

-- The table of the block group, as `ext2_init` copies it.
abbrev table : ℕ → ℕ
table = (ext2_init disk zeros (ext2_set_partition 0 loaded.vfs.fs)).0.bgd

-- A loader that has this file system, whatever its buffers hold.
abbrev mounted : Loader → Loader
mounted l = record l {
  fs = record {
    block_size = 1024;
    inode_size = 128;
    inodes_per_group = l.fs.inodes_per_group;
    bgd = table;
    part_lba = 0;
    blk_a = l.fs.blk_a;
    blk_b = l.fs.blk_b;
  };
}

shell_accepted : (l : Loader) → accepted disk zeros (codes "shell.elf") (mounted l) ≡ true
unfolding ext2_init ext2_set_partition ext2_find ext2_read_inode ext2_read_block ext2_read_file
    read_file_from find_from match_name ide_read_sector ide_select_sector has_magic
shell_accepted l = refl
