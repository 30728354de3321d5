-- ===== src/Fs/Ext2/Overflow.antt =====
-- `ext2_pread` with a range that goes round at 2^32.
use pepin_os.Base.{
  ℕ, ◌+◌, ◌-◌, ◌*◌, ◌/◌, ◌%◌, ◌^◌, ◌≤◌, ◌<◌, ◌≡◌, ◌∙◌, arith, ltb, leb, min, false, if◌then◌else◌,
  add32, sub32,
}
use native.Mathlib.Nat.{mul-sub, div-add-mod, mod-lt}
use pepin_os.Drivers.Ide.{Drive}
use pepin_os.Fs.Ext2.{Ext2, i_size, ext2_read_inode, pread_from, ext2_pread}
use pepin_os.Fs.Ext2.Block.{IsMounted}
use pepin_os.Fs.Ext2.Pread.{pread_from_lem}

-- The sum of the offset, in the file, and the size goes round, to a number in the file.
pub record GoesRound (file_size offset size : ℕ) : Type 0 where
  pub file : file_size < 2 ^ 32
  pub within : offset < file_size
  pub around : 2 ^ 32 ≤ offset + size
  pub sum : offset + size ≤ 2 ^ 32 + file_size

overflow_inode :
    (drive : Drive) (inode : ℕ → ℕ) (buf : ℕ → ℕ) (offset size : ℕ) (s : Ext2)
    → IsMounted s
    → GoesRound (i_size inode) offset size
    → let file_size = i_size inode in
      let size' = if ltb file_size (add32 offset size) then sub32 file_size offset else size in
      let blk = offset / s.block_size in
      let out =
        if leb file_size offset
        then (0, buf, s)
        else pread_from drive (12 - blk) blk (offset % s.block_size) 0 size' inode s buf in
      out.0 ≡ min size (s.block_size * 12 - offset)
overflow_inode drive inode buf offset size s v g =
    let blk = offset / s.block_size in
    let inside : leb (i_size inode) offset ≡ false = ground (arith, g.within) in
    let no_clamp : ltb (i_size inode) (add32 offset size) ≡ false =
      ground (arith, g.file, g.within, g.around, g.sum) in
    let read =
      pread_from_lem drive (12 - blk) blk (offset % s.block_size) 0 size inode s buf v
        (mod-lt offset (ground (arith, v.mounted))) (omega arith) in
    rw (inside, no_clamp)
      (read.0 ∙ omega (arith, div-add-mod offset s.block_size, mul-sub s.block_size 12 blk))

-- If, on a mounted file system, the offset lies in the file and the sum of the offset and the size goes
-- round at 2^32, to a number that is not behind the end of the file, `ext2_pread` does not end at the
-- end of the file: it returns the size that is asked for, or what is left of the first 12 blocks.
pub ext2_pread-GoesRound :
    (drive : Drive) (inum : ℕ) (buf : ℕ → ℕ) (offset size : ℕ) (raw : ℕ → ℕ) (s : Ext2)
    → IsMounted s
    → GoesRound (i_size (ext2_read_inode drive inum raw s).0) offset size
    → (ext2_pread drive inum buf offset size raw s).0 ≡ min size (s.block_size * 12 - offset)
unfolding ext2_pread ext2_read_inode
ext2_pread-GoesRound drive inum buf offset size raw s v g =
    overflow_inode drive (ext2_read_inode drive inum raw s).0 buf offset size
      (ext2_read_inode drive inum raw s).1
      (record {
        whole = v.whole;
        mounted = v.mounted;
        fits = v.fits;
        inodes = v.inodes;
        inode_fits = v.inode_fits;
      })
      g
