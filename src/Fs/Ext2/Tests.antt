-- ===== src/Fs/Ext2/Tests.antt =====
-- A small disk: blocks of 1024 bytes, the inode table in block 5, and the root directory in block 7
-- with a file.
use pepin_os.Base.{ℕ, ◌+◌, ◌-◌, ◌*◌, ◌<◌, ◌≡◌, refl, arith, ◌==◌, min, List, if◌then◌else◌, update}
use pepin_os.Base.Text.{codes}
use pepin_os.Drivers.Ide.{Drive}
use pepin_os.Fs.Ext2.{
  Ext2, i_size, i_block, ext2_read_block, ext2_read_inode, ext2_pread, ext2_find,
}
use pepin_os.Fs.Ext2.Block.{IsMounted, block_byte, ext2_read_inode_lem}
use pepin_os.Fs.Ext2.Overflow.{ext2_pread-GoesRound}
use pepin_os.Drivers.Ide.{ide_read_sector, ide_select_sector}
use pepin_os.Fs.Ext2.{de_rec_len, de_name_len}
use pepin_os.Fs.Ext2.Find.{InBuffer, all_read, entry, Entry, Entries, Finds, ext2_find-Finds}

-- The inode 2 is a directory of 1024 bytes, the inode 3 a file of 5 bytes in block 9.
abbrev disk : Drive
disk sector word =
    if sector == 10
    then (if word == 66
        then 1024
        else if word == 84
        then 7
        else if word == 130
        then 5
        else if word == 148
        then 9
        else 0)
    else if sector == 14
    then (if word == 0
        then 3
        else if word == 2
        then 1024
        else if word == 3
        then 2
        else if word == 4
        then 0x6968
        else 0)
    else if sector == 18
    then 0x4142
    else 0

abbrev zeros : ℕ → ℕ
zeros _ = 0

abbrev fs : Ext2
fs = record {
  block_size = 1024;
  inode_size = 128;
  inodes_per_group = 32;
  bgd = update zeros 8 5;
  part_lba = 0;
  blk_a = zeros;
  blk_b = zeros;
}

fs-IsMounted : IsMounted fs
fs-IsMounted = record {
  whole = refl;
  mounted = omega arith;
  fits = omega arith;
  inodes = omega arith;
  inode_fits = omega arith;
}

size_byte :
    (k : ℕ) → k < 128 → (ext2_read_inode disk 3 zeros fs).0 k ≡ block_byte disk fs 5 (256 + k)
size_byte k h = ext2_read_inode_lem disk 3 zeros fs k fs-IsMounted (omega arith) (omega arith) h

file_size : i_size (ext2_read_inode disk 3 zeros fs).0 ≡ 5
file_size =
    let b4 : (ext2_read_inode disk 3 zeros fs).0 4 ≡ 5 = size_byte 4 (omega arith) in
    let b5 : (ext2_read_inode disk 3 zeros fs).0 5 ≡ 0 = size_byte 5 (omega arith) in
    let b6 : (ext2_read_inode disk 3 zeros fs).0 6 ≡ 0 = size_byte 6 (omega arith) in
    let b7 : (ext2_read_inode disk 3 zeros fs).0 7 ≡ 0 = size_byte 7 (omega arith) in
    omega (arith, b4, b5, b6, b7)

ext2_pread-GoesRound_example :
    (ext2_pread disk 3 zeros 1 0xFFFF_FFFF zeros fs).0 ≡ min 0xFFFF_FFFF (1024 * 12 - 1)
ext2_pread-GoesRound_example =
    ext2_pread-GoesRound disk 3 zeros 1 0xFFFF_FFFF zeros fs fs-IsMounted (record {
      file = omega (arith, file_size);
      within = omega (arith, file_size);
      around = omega arith;
      sum = omega arith;
    })

-- The directory that the search walks over: one entry with a name of two bytes.
abbrev root_block : ℕ → ℕ
root_block =
    ext2_read_block disk (ext2_read_inode disk 2 zeros fs).1
      (i_block (ext2_read_inode disk 2 zeros fs).0 0) (ext2_read_inode disk 2 zeros fs).1.blk_b

root_entry : (de_rec_len root_block 0 ≡ 1024) × (de_name_len root_block 0 ≡ 2)
unfolding ext2_read_inode ext2_read_block ide_read_sector ide_select_sector
root_entry = (refl, refl)

root-InBuffer : InBuffer root_block (min (i_size (ext2_read_inode disk 2 zeros fs).0) 1024) 0
root-InBuffer =
    entry 0 (omega (arith, root_entry.1)) (λ e. omega (arith, e, root_entry.0))
      (all_read (0 + de_rec_len root_block 0) (omega (arith, root_entry.0)))

ext2_find-Finds_example :
    let (inode, s1) = ext2_read_inode disk 2 zeros fs in
    let blk = ext2_read_block disk s1 (i_block inode 0) s1.blk_b in
    (es : List Entry) × Entries blk (min (i_size inode) 1024) 0 es
    × Finds (codes "hi") es (ext2_find disk 2 (codes "hi") zeros fs).0
ext2_find-Finds_example =
    ext2_find-Finds disk 2 (codes "hi") zeros fs fs-IsMounted (λ a. omega arith) root-InBuffer
