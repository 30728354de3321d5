-- ===== src/Fs/Ext2.antt =====
-- fs/ext2.c and fs/ext2.h: the reader of an ext2 file system on a drive. The static variables are
-- the fields of one record. The structures of the disk stay arrays of bytes, as the code fills
-- them, and a field is read at its offset. A divisor of 0 (no file system is mounted) gives 0 here
-- and an exception on the machine.
pub mod Block
pub mod Pread
pub mod Overflow
pub mod Find
pub mod Mount
mod Tests
use pepin_os.Base.{
  ℕ, zero, suc, ◌+◌, ◌-◌, ◌*◌, ◌/◌, ◌%◌, ◌^◌, ◌≤◌, ◌<◌, ◌≡◌, refl, sym, ap, ◌∙◌, ◌≢◌, ◌⊎◌, inl, inr,
  arith, ◌==◌, ltb, leb, min, max, bit_and, bit_or, Bool, true, false, not, ◌&&◌, ◌||◌, Option,
  none, some, List, [], ◌∷◌, ◌++◌, map, if◌then◌else◌, for_range, update, for_range-update,
  update_self, length, get_elem?, length-append, Bool-cases, Option-cases, u32_mod, add32, sub32,
  mul32, shl32, shl32-one, pow-lt-u32, ltb→lt, lt→ltb, ltb→le, ==_iff,
}
use pepin_os.Base.Text.{codes, until_nul, bytes_of, le16, le32}
use pepin_os.Drivers.Ide.{Drive, ide_read_sector}

pub record Ext2 : Type 0 where
  pub block_size : ℕ
  pub inode_size : ℕ
  pub inodes_per_group : ℕ
  pub bgd : ℕ → ℕ
  pub part_lba : ℕ
  pub blk_a : ℕ → ℕ
  pub blk_b : ℕ → ℕ

-- Fields of `ext2_bgd_t`, `ext2_inode_t` and `ext2_dirent_t`.
abbrev pub bg_inode_table : (ℕ → ℕ) → ℕ
bg_inode_table raw = le32 raw 8

abbrev pub i_size : (ℕ → ℕ) → ℕ
i_size raw = le32 raw 4

abbrev pub i_block : (ℕ → ℕ) → ℕ → ℕ
i_block raw k = le32 raw (40 + 4 * k)

abbrev pub de_inode : (ℕ → ℕ) → ℕ → ℕ
de_inode blk off = le32 blk off

abbrev pub de_rec_len : (ℕ → ℕ) → ℕ → ℕ
de_rec_len blk off = le16 blk (off + 4)

abbrev pub de_name_len : (ℕ → ℕ) → ℕ → ℕ
de_name_len blk off = blk (off + 6)

abbrev pub de_name : (ℕ → ℕ) → ℕ → ℕ → ℕ
de_name blk off j = blk (off + 8 + j)

unfoldable pub ext2_set_partition : ℕ → Ext2 → Ext2
ext2_set_partition lba_start s = record s { part_lba = lba_start }

-- Both loops that copy a block: `for (j = ...; j < block_size && copied < size; j++)`, with the
-- rounds that are left.
pub copy_from : ℕ → (j copied size : ℕ) → (ℕ → ℕ) → (ℕ → ℕ) → ℕ × (ℕ → ℕ)
copy_from zero j copied size src buf = (copied, buf)
copy_from (suc n) j copied size src buf =
    let rest = copy_from n (suc j) (suc copied) size src (update buf copied (src j)) in
    if ltb copied size then rest else (copied, buf)

module _ (drive : Drive) where
  -- The buffer after the read. Each round fills 512 bytes.
  unfoldable pub ext2_read_block : Ext2 → ℕ → (ℕ → ℕ) → ℕ → ℕ
  ext2_read_block s block buf =
      let sects = s.block_size / 512 in
      let lba = add32 s.part_lba (mul32 block sects) in
      for_range sects 0 (λ i m. ide_read_sector drive (add32 lba i) (i * 512) m) buf

  -- The new state and the text that is printed.
  unfoldable pub ext2_init : (sb : ℕ → ℕ) → Ext2 → Ext2 × List ℕ
  ext2_init stack s =
      let sb = ide_read_sector drive (add32 s.part_lba 2) 0 stack in
      let sb_inode_sz = le16 sb 88 in
      let s1 = record s { inodes_per_group = le32 sb 40 } in
      if not (le16 sb 56 == 0xEF53)
      then (
        s1,
        codes "  [!!] Ext2: magic invalido " ++ (0xE2 ∷ 0x80 ∷ 0x94 ∷ codes " no es ext2\n"),
      )
      else (let s2 = record s1 {
        block_size = shl32 1024 (le32 sb 24);
        inode_size = if leb 1 (le32 sb 76) && leb 128 sb_inode_sz then sb_inode_sz else 128;
      } in
          let blk = ext2_read_block s2 (add32 (le32 sb 20) 1) s2.blk_a in
          (
            record s2 { blk_a = blk; bgd = for_range 32 0 (λ i b. update b i (blk i)) s2.bgd },
            codes "  [OK] Ext2: filesystem montado\n",
          ))

  -- The 128 bytes of the inode, over what the caller's variable held.
  unfoldable pub ext2_read_inode : ℕ → (ℕ → ℕ) → Ext2 → (ℕ → ℕ) × Ext2
  ext2_read_inode inum raw s =
      let idx = sub32 inum 1 in
      let ipb = s.block_size / s.inode_size in
      let block = add32 (bg_inode_table s.bgd) (idx / ipb) in
      let offset = mul32 (idx % ipb) s.inode_size in
      let blk = ext2_read_block s block s.blk_a in
      (for_range 128 0 (λ i r. update r i (blk (add32 offset i))) raw, record s { blk_a = blk })

  pub ext2_inode_size : ℕ → (ℕ → ℕ) → Ext2 → ℕ × Ext2
  ext2_inode_size inum raw s = let (inode, s') = ext2_read_inode inum raw s in (i_size inode, s')

  -- `while (copied < size && blk < 12)`, with the rounds that are left before block 12.
  pub pread_from : ℕ → (blk blk_off copied size : ℕ) → (ℕ → ℕ) → Ext2 → (ℕ → ℕ) → ℕ × (ℕ → ℕ) × Ext2
  pread_from zero blk blk_off copied size inode s buf = (copied, buf, s)
  pread_from (suc n) blk blk_off copied size inode s buf =
      let sparse = i_block inode blk == 0 in
      let blk_a = if sparse then s.blk_a else ext2_read_block s (i_block inode blk) s.blk_a in
      let src = if sparse then (λ _. 0) else blk_a in
      let out = copy_from (s.block_size - blk_off) blk_off copied size src buf in
      let rest = pread_from n (suc blk) 0 out.0 size inode (record s { blk_a = blk_a }) out.1 in
      if ltb copied size then rest else (copied, buf, s)

  -- The number of bytes that were read, the caller's buffer, and the state.
  pub ext2_pread :
      (inum : ℕ) (buf : ℕ → ℕ) (offset size : ℕ) (raw : ℕ → ℕ) (s : Ext2) → ℕ × (ℕ → ℕ) × Ext2
  ext2_pread inum buf offset size raw s =
      let (inode, s') = ext2_read_inode inum raw s in
      let file_size = i_size inode in
      let size' = if ltb file_size (add32 offset size) then sub32 file_size offset else size in
      let blk = offset / s'.block_size in
      let out = pread_from (12 - blk) blk (offset % s'.block_size) 0 size' inode s' buf in
      if leb file_size offset then (0, buf, s') else out

  -- `for (blk = 0; blk < 12 && copied < size; blk++)`.
  unfoldable pub read_file_from :
      ℕ → (blk copied size : ℕ) → (ℕ → ℕ) → Ext2 → (ℕ → ℕ) → ℕ × (ℕ → ℕ) × Ext2
  read_file_from zero blk copied size inode s buf = (copied, buf, s)
  read_file_from (suc n) blk copied size inode s buf =
      let bytes =
        if ltb size (add32 copied s.block_size) then sub32 size copied else s.block_size in
      let sparse = i_block inode blk == 0 in
      let blk_a = if sparse then s.blk_a else ext2_read_block s (i_block inode blk) s.blk_a in
      let src = if sparse then (λ _. 0) else blk_a in
      let buf' = for_range bytes 0 (λ j b. update b (copied + j) (src j)) buf in
      let rest =
        read_file_from n (suc blk) (add32 copied bytes) size inode (record s { blk_a = blk_a })
          buf' in
      if ltb copied size then rest else (copied, buf, s)

  unfoldable pub ext2_read_file :
      (inum : ℕ) (buf : ℕ → ℕ) (max_size : ℕ) (raw : ℕ → ℕ) (s : Ext2) → ℕ × (ℕ → ℕ) × Ext2
  ext2_read_file inum buf max_size raw s =
      let (inode, s') = ext2_read_inode inum raw s in
      let size = if ltb (i_size inode) max_size then i_size inode else max_size in
      read_file_from 12 0 0 size inode s' buf

-- The inner loop of `ext2_find`, over the bytes of the entry's name that are left; the name that
-- is looked for ends where the list does.
unfoldable pub match_name : ℕ → (ℕ → ℕ) → List ℕ → Bool
match_name zero entry [] = true
match_name zero entry (c ∷ cs) = false
match_name (suc n) entry [] = false
match_name (suc n) entry (c ∷ cs) =
    let rest = match_name n (λ j. entry (suc j)) cs in if c == entry 0 then rest else false

-- `while (off < inode.i_size && off < block_size)`, on fuel.
unfoldable pub find_from : ℕ → ℕ → (size block_size : ℕ) → (ℕ → ℕ) → List ℕ → ℕ
find_from zero off size block_size blk name = 0
find_from (suc fuel) off size block_size blk name =
    let rest = find_from fuel (add32 off (de_rec_len blk off)) size block_size blk name in
    let hit =
      not (de_inode blk off == 0) && match_name (de_name_len blk off) (de_name blk off) name in
    if not (ltb off size && ltb off block_size)
    then 0
    else if de_rec_len blk off == 0
    then 0
    else if hit
    then de_inode blk off
    else rest

unfoldable pub ext2_find : Drive → (dir_ino : ℕ) → List ℕ → (raw : ℕ → ℕ) → Ext2 → ℕ × Ext2
ext2_find drive dir_ino name raw s =
    let (inode, s1) = ext2_read_inode drive dir_ino raw s in
    let blk = ext2_read_block drive s1 (i_block inode 0) s1.blk_b in
    (
      find_from (s1.block_size + 1) 0 (i_size inode) s1.block_size blk name,
      record s1 { blk_b = blk },
    )

-- The text that `ext2_ls` prints.
pub ls_from : ℕ → ℕ → (size block_size : ℕ) → (ℕ → ℕ) → List ℕ
ls_from zero off size block_size blk = []
ls_from (suc fuel) off size block_size blk =
    let rest = ls_from fuel (add32 off (de_rec_len blk off)) size block_size blk in
    let name = until_nul (bytes_of (de_name_len blk off) (de_name blk off)) in
    let line = if de_inode blk off == 0 then [] else codes "    " ++ (name ++ (10 ∷ [])) in
    if not (ltb off size && ltb off block_size)
    then []
    else if de_rec_len blk off == 0
    then []
    else line ++ rest

pub ext2_ls : Drive → (dir_ino : ℕ) → (raw : ℕ → ℕ) → Ext2 → List ℕ × Ext2
ext2_ls drive dir_ino raw s =
    let (inode, s1) = ext2_read_inode drive dir_ino raw s in
    let blk = ext2_read_block drive s1 (i_block inode 0) s1.blk_b in
    (ls_from (s1.block_size + 1) 0 (i_size inode) s1.block_size blk, record s1 { blk_b = blk })
