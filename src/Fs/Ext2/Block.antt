-- ===== src/Fs/Ext2/Block.antt =====
-- Reading a block, as bytes of the drive.
use pepin_os.Base.{
  ℕ, zero, suc, ◌+◌, ◌-◌, ◌*◌, ◌/◌, ◌%◌, ◌^◌, ◌≤◌, ◌<◌, ◌≡◌, refl, ap, ◌∙◌, ◌≢◌, inl, inr, arith,
  ◌==◌, ltb, leb, Bool, true, ◌&&◌, if◌then◌else◌, for_range, for_range-update, Bool-cases, add32,
  sub32, mul32, lt→ltb,
}
use pepin_os.Drivers.Ide.{Drive, sector_byte, ide_read_sector, ide_read_sector_lem}
use pepin_os.Fs.Ext2.{
  i_size, ext2_inode_size, bg_inode_table, ext2_read_inode, Ext2, ext2_read_block,
}

-- A file system on which no reader divides by 0 or leaves the static buffers: blocks are made of whole
-- sectors, the 4096 bytes of `blk_a` and `blk_b` hold one, and an inode has its 128 bytes and fits into
-- a block.
pub record IsMounted (s : Ext2) : Type 0 where
  pub whole : s.block_size % 512 ≡ 0
  pub mounted : s.block_size ≢ 0
  pub fits : s.block_size ≤ 4096
  pub inodes : 128 ≤ s.inode_size
  pub inode_fits : s.inode_size ≤ s.block_size

-- The byte `a` of the block, where it stands on the drive.
abbrev pub block_byte : Drive → Ext2 → ℕ → ℕ → ℕ
block_byte drive s block a =
    let lba = add32 s.part_lba (mul32 block (s.block_size / 512)) in
    sector_byte drive (add32 lba (a / 512)) (a % 512)

next_sector :
    (n i a : ℕ) (w : ℕ → ℕ → ℕ) (old : ℕ)
    → (if leb (suc i * 512) a && ltb a ((suc i + n) * 512)
        then w (a / 512) (a % 512)
        else if leb (i * 512) a && ltb a (i * 512 + 512)
        then w i (a - i * 512)
        else old)
      ≡ (if leb (i * 512) a && ltb a ((i + suc n) * 512) then w (a / 512) (a % 512) else old)
next_sector n i a w old = elim (Bool-cases (leb (i * 512) a && ltb a (i * 512 + 512))) [
  | inl here ↦
      let q : a / 512 ≡ i = ground arith in
      let r : a - i * 512 ≡ a % 512 = ground arith in ground (arith, q, r)
  | inr there ↦ ground arith
]

read_sectors :
    (drive : Drive) (n i lba : ℕ) (buf : ℕ → ℕ) (a : ℕ)
    → for_range n i (λ k m. ide_read_sector drive (add32 lba k) (k * 512) m) buf a ≡ (
        if leb (i * 512) a && ltb a ((i + n) * 512)
        then sector_byte drive (add32 lba (a / 512)) (a % 512)
        else buf a)
read_sectors drive zero i lba buf a = ground arith
read_sectors drive (suc n) i lba buf a =
    read_sectors drive n (suc i) lba (ide_read_sector drive (add32 lba i) (i * 512) buf) a
    ∙ ap
        (λ old.
          if leb (suc i * 512) a && ltb a ((suc i + n) * 512)
          then sector_byte drive (add32 lba (a / 512)) (a % 512)
          else old)
        (ide_read_sector_lem drive (add32 lba i) (i * 512) buf a)
    ∙ next_sector n i a (λ k j. sector_byte drive (add32 lba k) j) (buf a)

whole_sectors :
    (s : Ext2) (a : ℕ)
    → IsMounted s
    → (leb (0 * 512) a && ltb a ((0 + s.block_size / 512) * 512)) ≡ ltb a s.block_size
whole_sectors s a v = let w = v.whole in ground arith

-- `ext2_read_block` fills a block's bytes with those that the drive has for it, and leaves the
-- bytes of the buffer behind them.
pub ext2_read_block_lem :
    (drive : Drive) (s : Ext2) (block : ℕ) (buf : ℕ → ℕ) (a : ℕ)
    → IsMounted s
    → ext2_read_block drive s block buf a
      ≡ (if ltb a s.block_size then block_byte drive s block a else buf a)
unfolding ext2_read_block
ext2_read_block_lem drive s block buf a v =
    read_sectors drive (s.block_size / 512) 0 (add32 s.part_lba (mul32 block (s.block_size / 512)))
      buf a
    ∙ ap (λ (c : Bool). if c then block_byte drive s block a else buf a) (whole_sectors s a v)

word_byte : (w j : ℕ) → (if j % 2 == 0 then w % 256 else w / 256 % 256) < 256
word_byte w j = ground arith

pub read_byte :
    (drive : Drive) (s : Ext2) (block : ℕ) (buf : ℕ → ℕ)
    → IsMounted s
    → ((a : ℕ) → buf a < 256)
    → (a : ℕ) → ext2_read_block drive s block buf a < 256
read_byte drive s block buf v hb a =
    rw (ext2_read_block_lem drive s block buf a v) (elim (Bool-cases (ltb a s.block_size)) [
      | inl inside ↦ rw inside (
          let lba = add32 s.part_lba (mul32 block (s.block_size / 512)) in
          word_byte (drive (add32 lba (a / 512) % 2 ^ 28) (a % 512 / 2)) (a % 512))
      | inr behind ↦ rw behind (hb a)
    ])

-- If the whole inode lies in its block, `ext2_read_inode` gives its 128 bytes from the block of the
-- inode table that has it.
pub ext2_read_inode_lem :
    (drive : Drive) (inum : ℕ) (raw : ℕ → ℕ) (s : Ext2) (i : ℕ)
    → IsMounted s
    → let per_block = s.block_size / s.inode_size in
      let at = mul32 (sub32 inum 1 % per_block) s.inode_size in
      at + 128 ≤ s.block_size
      → at + 128 < 2 ^ 32
      → i < 128
      → (ext2_read_inode drive inum raw s).0 i
        ≡ block_byte drive s (add32 (bg_inode_table s.bgd) (sub32 inum 1 / per_block)) (at + i)
unfolding ext2_read_inode
ext2_read_inode_lem drive inum raw s i v hb hw hi =
    let per_block = s.block_size / s.inode_size in
    let at = mul32 (sub32 inum 1 % per_block) s.inode_size in
    let block = add32 (bg_inode_table s.bgd) (sub32 inum 1 / per_block) in
    let blk = ext2_read_block drive s block s.blk_a in
    let all : leb 0 i && ltb i (0 + 128) ≡ true = ground arith in
    let place : add32 at i ≡ at + i = ground arith in
    for_range-update 128 0 (λ k. blk (add32 at k)) raw i
    ∙ rw (all, place)
        (ext2_read_block_lem drive s block s.blk_a (at + i) v
          ∙ rw (lt→ltb (at + i) s.block_size (omega arith)) refl)

pub ext2_inode_size_lem :
    (drive : Drive) (inum : ℕ) (raw : ℕ → ℕ) (s : Ext2)
    → (ext2_inode_size drive inum raw s).0 ≡ i_size (ext2_read_inode drive inum raw s).0
unfolding ext2_inode_size
ext2_inode_size_lem drive inum raw s = refl
