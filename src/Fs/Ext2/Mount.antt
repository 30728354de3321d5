-- ===== src/Fs/Ext2/Mount.antt =====
-- Mounting, and what the readers keep of a mounted file system.
use pepin_os.Base.{
  ℕ, zero, suc, ◌+◌, ◌%◌, ◌*◌, ◌^◌, ◌≤◌, ◌<◌, ◌≡◌, refl, ◌∙◌, ◌≢◌, inl, inr, arith, ◌==◌, ltb, true,
  List, if◌then◌else◌, Bool-cases, add32, shl32,
}
use pepin_os.Base.Text.{le16, le32}
use pepin_os.Drivers.Ide.{Drive, ide_read_sector, ide_read_sector_lem, sector_byte}
use pepin_os.Fs.Ext2.{
  Ext2, i_size, ext2_init, ext2_set_partition, ext2_ls, ext2_find, ext2_read_inode, ext2_read_file,
  read_file_from,
}
use pepin_os.Fs.Ext2.Block.{IsMounted}

-- The sector 2 of the partition is a superblock with blocks of 1024 * 2^log bytes, at most 4096, and
-- inodes that fit into a block.
pub record IsExt2 (drive : Drive) (lba log : ℕ) : Type 0 where
  pub small : log < 3
  pub magic :
      (sector_byte drive (add32 lba 2) 56 ≡ 0x53) × (sector_byte drive (add32 lba 2) 57 ≡ 0xEF)
  pub size :
      (sector_byte drive (add32 lba 2) 24 ≡ log)
      × (sector_byte drive (add32 lba 2) 25 ≡ 0)
      × (sector_byte drive (add32 lba 2) 26 ≡ 0)
      × (sector_byte drive (add32 lba 2) 27 ≡ 0)
  pub inodes :
      sector_byte drive (add32 lba 2) 88 + 2 ^ 8 * sector_byte drive (add32 lba 2) 89
      ≤ shl32 1024 log

block_sizes :
    (log : ℕ)
    → log < 3
    → (shl32 1024 log % 512 ≡ 0)
      × (shl32 1024 log ≢ 0)
      × (shl32 1024 log ≤ 4096)
      × (1024 ≤ shl32 1024 log)
block_sizes zero h = (refl, λ e. omega (arith, e), omega arith, omega arith)
block_sizes (suc zero) h = (refl, λ e. omega (arith, e), omega arith, omega arith)
block_sizes (suc (suc zero)) h = (refl, λ e. omega (arith, e), omega arith, omega arith)
block_sizes (suc (suc (suc n))) h = absurd (omega (arith, h))

in_sector :
    (drive : Drive) (lba : ℕ) (stack : ℕ → ℕ) (j : ℕ)
    → j < 512
    → ide_read_sector drive lba 0 stack j ≡ sector_byte drive lba j
in_sector drive lba stack j h = ide_read_sector_lem drive lba 0 stack j ∙ ground (arith, h)

-- `ext2_init` mounts a partition that begins with such a superblock.
pub ext2_init-IsMounted :
    (drive : Drive) (stack : ℕ → ℕ) (s : Ext2) (log : ℕ)
    → IsExt2 drive s.part_lba log
    → IsMounted (ext2_init drive stack s).0
unfolding ext2_init
ext2_init-IsMounted drive stack s log e =
    let sb = ide_read_sector drive (add32 s.part_lba 2) 0 stack in
    let at = in_sector drive (add32 s.part_lba 2) stack in
    let magic : le16 sb 56 == 0xEF53 ≡ true =
      ground (arith, at 56 (omega arith), at 57 (omega arith), e.magic) in
    let size : le32 sb 24 ≡ log = omega (
      arith,
      at 24 (omega arith),
      at 25 (omega arith),
      at 26 (omega arith),
      at 27 (omega arith),
      e.size,
    ) in
    let b = block_sizes log e.small in
    let inode : le16 sb 88 ≤ shl32 1024 log =
      omega (arith, at 88 (omega arith), at 89 (omega arith), e.inodes) in
    rw (magic, size)
      (record {
        whole = b.0;
        mounted = b.1;
        fits = b.2;
        inodes = ground arith;
        inode_fits = ground (arith, inode, b.3);
      })

pub ext2_set_partition-IsMounted :
    (drive : Drive) (stack : ℕ → ℕ) (s : Ext2) (lba log : ℕ)
    → IsExt2 drive lba log
    → IsMounted (ext2_init drive stack (ext2_set_partition lba s)).0
unfolding ext2_set_partition
ext2_set_partition-IsMounted drive stack s lba log e =
    ext2_init-IsMounted drive stack (record s { part_lba = lba }) log e

-- The readers change the buffers of blocks only.
pub record SameDisk (s s' : Ext2) : Type 0 where
  pub block_size : s'.block_size ≡ s.block_size
  pub inode_size : s'.inode_size ≡ s.inode_size
  pub bgd : s'.bgd ≡ s.bgd
  pub part_lba : s'.part_lba ≡ s.part_lba

pub SameDisk-IsMounted : {s s' : Ext2} → SameDisk s s' → IsMounted s → IsMounted s'
SameDisk-IsMounted {s} {s'} d c = record {
  whole = rw d.block_size c.whole;
  mounted = rw d.block_size c.mounted;
  fits = rw d.block_size c.fits;
  inodes = rw d.inode_size c.inodes;
  inode_fits = rw (d.inode_size, d.block_size) c.inode_fits;
}

pub both_SameDisk : {a b c : Ext2} → SameDisk a b → SameDisk b c → SameDisk a c
both_SameDisk first second = record {
  block_size = second.block_size ∙ first.block_size;
  inode_size = second.inode_size ∙ first.inode_size;
  bgd = second.bgd ∙ first.bgd;
  part_lba = second.part_lba ∙ first.part_lba;
}

pub ext2_ls-SameDisk :
    (drive : Drive) (d : ℕ) (raw : ℕ → ℕ) (s : Ext2) → SameDisk s (ext2_ls drive d raw s).1
unfolding ext2_ls ext2_read_inode
ext2_ls-SameDisk drive d raw s = record {
  block_size = refl;
  inode_size = refl;
  bgd = refl;
  part_lba = refl;
}

pub ext2_find-SameDisk :
    (drive : Drive) (d : ℕ) (name : List ℕ) (raw : ℕ → ℕ) (s : Ext2)
    → SameDisk s (ext2_find drive d name raw s).1
unfolding ext2_find ext2_read_inode
ext2_find-SameDisk drive d name raw s = record {
  block_size = refl;
  inode_size = refl;
  bgd = refl;
  part_lba = refl;
}

read_from-SameDisk :
    (drive : Drive) (n blk copied size : ℕ) (inode : ℕ → ℕ) (s0 s : Ext2) (buf : ℕ → ℕ)
    → SameDisk s0 s
    → SameDisk s0 (read_file_from drive n blk copied size inode s buf).2
unfolding read_file_from
read_from-SameDisk drive zero blk copied size inode s0 s buf same = same
read_from-SameDisk drive (suc n) blk copied size inode s0 s buf same =
    elim (Bool-cases (ltb copied size)) [
      | inl more ↦ rw more (
          read_from-SameDisk drive n (suc blk) _ size inode s0 _ _ (record {
            block_size = same.block_size;
            inode_size = same.inode_size;
            bgd = same.bgd;
            part_lba = same.part_lba;
          }))
      | inr done ↦ rw done same
    ]

pub ext2_read_file-SameDisk :
    (drive : Drive) (inum : ℕ) (buf : ℕ → ℕ) (max_size : ℕ) (raw : ℕ → ℕ) (s : Ext2)
    → SameDisk s (ext2_read_file drive inum buf max_size raw s).2
unfolding ext2_read_file ext2_read_inode
ext2_read_file-SameDisk drive inum buf max_size raw s =
    let (inode, s') = ext2_read_inode drive inum raw s in
    let size = if ltb (i_size inode) max_size then i_size inode else max_size in
    read_from-SameDisk drive 12 0 0 size inode s s' buf
      (record { block_size = refl; inode_size = refl; bgd = refl; part_lba = refl })
