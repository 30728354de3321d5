-- ===== src/Fs/Ext2/Pread.antt =====
-- `ext2_pread` returns the bytes of the file.
use pepin_os.Base.{
  ℕ, zero, suc, ◌+◌, ◌-◌, ◌*◌, ◌/◌, ◌%◌, ◌≤◌, ◌<◌, ◌≡◌, refl, ap, ◌∙◌, inl, inr, arith, ◌==◌, ltb,
  leb, min, ◌&&◌, if◌then◌else◌, update, Bool-cases, lt→ltb,
}
use pepin_os.Drivers.Ide.{Drive}
use pepin_os.Fs.Ext2.{Ext2, i_block, ext2_read_block, copy_from, pread_from}
use native.Mathlib.Nat.{mul-add-div, mul-add-mod_self_left, div-eq_of_lt, mod-eq_of_lt}
use pepin_os.Fs.Ext2.Block.{IsMounted, block_byte, ext2_read_block_lem}

next_byte :
    (n j copied size i : ℕ) (src buf : ℕ → ℕ)
    → copied < size
    → (if leb (suc copied) i && ltb i (min size (suc copied + n))
        then src (suc j + (i - suc copied))
        else update buf copied (src j) i)
      ≡ (if leb copied i && ltb i (min size (copied + suc n))
          then src (j + (i - copied))
          else buf i)
next_byte n j copied size i src buf h = elim (Bool-cases (leb (suc copied) i)) [
  | inl later ↦
      let place : suc j + (i - suc copied) ≡ j + (i - copied) = ground arith in
      ground (arith, place)
  | inr now ↦ elim (Bool-cases (copied == i)) [
    | inl same ↦ let place : j + (i - copied) ≡ j = ground arith in ground (arith, place)
    | inr before ↦ ground arith
  ]
]

pub copy_from_lem :
    (n j copied size : ℕ) (src buf : ℕ → ℕ)
    → copied ≤ size
    → ((copy_from n j copied size src buf).0 ≡ min size (copied + n))
      × ((i : ℕ)
          → (copy_from n j copied size src buf).1 i ≡ (
              if leb copied i && ltb i (min size (copied + n))
              then src (j + (i - copied))
              else buf i))
unfolding copy_from
copy_from_lem zero j copied size src buf h = (omega arith, λ i. ground arith)
copy_from_lem (suc n) j copied size src buf h = elim (Bool-cases (ltb copied size)) [
  | inl more ↦
      let rest =
        copy_from_lem n (suc j) (suc copied) size src (update buf copied (src j)) (ground arith) in
      rw more
        (omega (arith, rest.0), λ i. rest.1 i ∙ next_byte n j copied size i src buf (ground arith))
  | inr full ↦ rw full (ground arith, λ i. ground arith)
]

-- The byte `p` of a file that the inode describes.
abbrev pub file_byte : Drive → Ext2 → (ℕ → ℕ) → ℕ → ℕ
file_byte drive s inode p =
    let block = i_block inode (p / s.block_size) in
    if block == 0 then 0 else block_byte drive s block (p % s.block_size)

next_block :
    (off copied size i blk bs n : ℕ) (f src buf : ℕ → ℕ)
    → off < bs
    → copied < size
    → ((a : ℕ) → a < bs → src a ≡ f (bs * blk + a))
    → let c = min size (copied + (bs - off)) in
      (if leb c i && ltb i (min size (c + (bs * n - 0)))
        then f (bs * suc blk + 0 + (i - c))
        else if leb copied i && ltb i c
        then src (off + (i - copied))
        else buf i)
      ≡ (if leb copied i && ltb i (min size (copied + (bs * suc n - off)))
          then f (bs * blk + off + (i - copied))
          else buf i)
next_block off copied size i blk bs n f src buf ho hc hs =
    let c = min size (copied + (bs - off)) in
    elim (Bool-cases (leb copied i && ltb i c)) [
      | inl here ↦
          let byte = hs (off + (i - copied)) (ground arith) in
          let place : bs * blk + (off + (i - copied)) ≡ bs * blk + off + (i - copied) =
            omega arith in
          ground (arith, byte, place)
      | inr there ↦ elim (Bool-cases (leb c i && ltb i (min size (c + (bs * n - 0))))) [
        | inl later ↦
            let place : bs * suc blk + 0 + (i - c) ≡ bs * blk + off + (i - copied) = ground arith in
            ground (arith, place)
        | inr outside ↦ ground arith
      ]
    ]

source_byte :
    (drive : Drive) (s : Ext2) (inode : ℕ → ℕ) (blk a : ℕ)
    → IsMounted s
    → a < s.block_size
    → let sparse = i_block inode blk == 0 in
      let blk_a = if sparse then s.blk_a else ext2_read_block drive s (i_block inode blk) s.blk_a in
      let src : ℕ → ℕ = if sparse then (λ _. 0) else blk_a in
      src a ≡ file_byte drive s inode (s.block_size * blk + a)
source_byte drive s inode blk a v h =
    let q : (s.block_size * blk + a) / s.block_size ≡ blk =
      mul-add-div (ground (arith, v.mounted)) blk a
      ∙ ap (λ (d : ℕ). blk + d) (div-eq_of_lt h)
      ∙ omega arith in
    let r : (s.block_size * blk + a) % s.block_size ≡ a =
      mul-add-mod_self_left s.block_size blk a ∙ mod-eq_of_lt h in
    rw (q, r)
      (elim (Bool-cases (i_block inode blk == 0)) [
        | inl hole ↦ rw hole refl
        | inr present ↦ rw present (
            ext2_read_block_lem drive s (i_block inode blk) s.blk_a a v
            ∙ rw (lt→ltb a s.block_size h) refl)
      ])

pub pread_from_lem :
    (drive : Drive) (n blk off copied size : ℕ) (inode : ℕ → ℕ) (s : Ext2) (buf : ℕ → ℕ)
    → IsMounted s
    → off < s.block_size
    → copied ≤ size
    → let out = pread_from drive n blk off copied size inode s buf in
      let end = min size (copied + (s.block_size * n - off)) in
      (out.0 ≡ end)
      × ((i : ℕ)
          → out.1 i ≡ (
              if leb copied i && ltb i end
              then file_byte drive s inode (s.block_size * blk + off + (i - copied))
              else buf i))
unfolding pread_from
pread_from_lem drive zero blk off copied size inode s buf v ho hc = (omega arith, λ i. ground arith)
pread_from_lem drive (suc n) blk off copied size inode s buf v ho hc =
    elim (Bool-cases (ltb copied size)) [
      | inl more ↦
          let sparse = i_block inode blk == 0 in
          let blk_a =
            if sparse then s.blk_a else ext2_read_block drive s (i_block inode blk) s.blk_a in
          let src : ℕ → ℕ = if sparse then (λ _. 0) else blk_a in
          let bs = s.block_size in
          let first = copy_from_lem (bs - off) off copied size src buf hc in
          let out = copy_from (bs - off) off copied size src buf in
          let rest =
            pread_from_lem drive n (suc blk) 0 out.0 size inode (record s { blk_a = blk_a }) out.1
              (record {
                whole = v.whole;
                mounted = v.mounted;
                fits = v.fits;
                inodes = v.inodes;
                inode_fits = v.inode_fits;
              })
              (omega arith) (omega (arith, first.0)) in
          let f = file_byte drive s inode in
          rw more (
            rest.0 ∙ omega (arith, first.0),
            λ i.
                rest.1 i
                ∙ ap
                    (λ (c : ℕ).
                      if leb c i && ltb i (min size (c + (bs * n - 0)))
                      then f (bs * suc blk + 0 + (i - c))
                      else out.1 i)
                    first.0
                ∙ ap
                    (λ (old : ℕ).
                      if leb (min size (copied + (bs - off))) i
                        && ltb i (min size (min size (copied + (bs - off)) + (bs * n - 0)))
                      then f (bs * suc blk + 0 + (i - min size (copied + (bs - off))))
                      else old)
                    (first.1 i)
                ∙ next_block off copied size i blk bs n f src buf ho (ground arith)
                    (λ a h. source_byte drive s inode blk a v h),
          )
      | inr full ↦ rw full (ground arith, λ i. ground arith)
    ]
