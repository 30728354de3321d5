-- ===== src/Fs/Ext2/Find.antt =====
-- `ext2_find` searches the directory's entries.
use pepin_os.Base.{
  ℕ, zero, suc, ◌+◌, ◌^◌, ◌≤◌, ◌<◌, ◌≡◌, refl, sym, ◌≢◌, ◌⊎◌, inl, inr, arith, ◌==◌, ltb, min, true,
  false, not, ◌&&◌, List, [], ◌∷◌, if◌then◌else◌, Bool-cases, add32,
}
use mathlib.Core.List.{cons-ne-nil, head-eq_of_cons-eq, tail-eq_of_cons-eq}
use pepin_os.Drivers.Ide.{Drive}
use pepin_os.Fs.Ext2.Block.{IsMounted, read_byte}
use pepin_os.Base.Text.{bytes_of}
use pepin_os.Fs.Ext2.{
  Ext2, i_size, i_block, de_inode, de_rec_len, de_name_len, de_name, ext2_read_inode,
  ext2_read_block, match_name, find_from, ext2_find,
}

pub record Entry : Type 0 where
  pub inode : ℕ
  pub name : List ℕ

abbrev pub entry_at : (ℕ → ℕ) → ℕ → Entry
entry_at blk off = record {
  inode = de_inode blk off;
  name = bytes_of (de_name_len blk off) (de_name blk off);
}

-- The entries of a directory's block from an offset on, up to `end` or to a length of 0.
pub data Entries (blk : ℕ → ℕ) (end : ℕ) : ℕ → List Entry → Type 0 where
  past : (off : ℕ) → end ≤ off → Entries blk end off []
  stop : (off : ℕ) → off < end → de_rec_len blk off ≡ 0 → Entries blk end off []
  next :
      (off : ℕ) {es : List Entry}
      → off < end
      → de_rec_len blk off ≢ 0
      → Entries blk end (off + de_rec_len blk off) es
      → Entries blk end off (entry_at blk off ∷ es)

-- What a search for the name gives: the inode of the first entry in use that has it.
pub data Finds (name : List ℕ) : List Entry → ℕ → Type 0 where
  nothing : Finds name [] 0
  here : (e : Entry) {es : List Entry} → e.inode ≢ 0 → e.name ≡ name → Finds name (e ∷ es) e.inode
  later :
      (e : Entry) {es : List Entry} {r : ℕ}
      → ¬ ((e.inode ≢ 0) × (e.name ≡ name))
      → Finds name es r
      → Finds name (e ∷ es) r

match_name_lem :
    (n : ℕ) (f : ℕ → ℕ) (cs : List ℕ)
    → ((match_name n f cs ≡ true) × (bytes_of n f ≡ cs))
      ⊎ ((match_name n f cs ≡ false) × (bytes_of n f ≢ cs))
unfolding match_name
match_name_lem zero f [] = inl (refl, refl)
match_name_lem zero f (c ∷ cs) = inr (refl, λ e. cons-ne-nil c cs (sym e))
match_name_lem (suc n) f [] = inr (refl, λ e. cons-ne-nil (f 0) (bytes_of n (λ j. f (suc j))) e)
match_name_lem (suc n) f (c ∷ cs) = elim (Bool-cases (c == f 0)) [
  | inl same ↦ elim (match_name_lem n (λ j. f (suc j)) cs) [
    | inl found ↦ rw same (inl (found.0, let first : f 0 ≡ c = ground arith in cc (found.1, first)))
    | inr lost ↦ rw same (inr (lost.0, λ e. lost.1 (tail-eq_of_cons-eq e)))
  ]
  | inr other ↦ rw other (inr (refl, λ e. absurd (ground (arith, head-eq_of_cons-eq e))))
]

found_or_later :
    (blk : ℕ → ℕ) (off : ℕ) (name : List ℕ) {es : List Entry} {r : ℕ}
    → Finds name es r
    → Finds name (entry_at blk off ∷ es) (
        if not (de_inode blk off == 0) && match_name (de_name_len blk off) (de_name blk off) name
        then de_inode blk off
        else r)
found_or_later blk off name rest = elim (Bool-cases (de_inode blk off == 0)) [
  | inl free ↦ rw free (Finds.later (entry_at blk off) (λ h. h.0 (ground arith)) rest)
  | inr used ↦ elim (match_name_lem (de_name_len blk off) (de_name blk off) name) [
    | inl same ↦ rw (used, same.0) (Finds.here (entry_at blk off) (ground arith) same.1)
    | inr other ↦ rw (used, other.0) (Finds.later (entry_at blk off) (λ h. other.1 h.1) rest)
  ]
]

pub find_from-Finds :
    (fuel off size bs : ℕ) (blk : ℕ → ℕ) (name : List ℕ) {es : List Entry}
    → bs + 65536 ≤ 2 ^ 32
    → ((a : ℕ) → blk a < 256)
    → min size bs < off + fuel
    → Entries blk (min size bs) off es
    → Finds name es (find_from fuel off size bs blk name)
unfolding find_from
find_from-Finds zero off size bs blk name hb hbytes hf (Entries.past _ h) = Finds.nothing
find_from-Finds zero off size bs blk name hb hbytes hf (Entries.stop _ h e) = absurd (omega arith)
find_from-Finds zero off size bs blk name hb hbytes hf (Entries.next _ h ne en) =
    absurd (omega arith)
find_from-Finds (suc fuel) off size bs blk name hb hbytes hf (Entries.past _ h) =
    let over : not (ltb off size && ltb off bs) ≡ true = ground arith in rw over Finds.nothing
find_from-Finds (suc fuel) off size bs blk name hb hbytes hf (Entries.stop _ h e) =
    let inside : not (ltb off size && ltb off bs) ≡ false = ground arith in
    let last : de_rec_len blk off == 0 ≡ true = ground arith in rw (inside, last) Finds.nothing
find_from-Finds (suc fuel) off size bs blk name hb hbytes hf (Entries.next _ h ne en) =
    let inside : not (ltb off size && ltb off bs) ≡ false = ground arith in
    let goes_on : de_rec_len blk off == 0 ≡ false = ground arith in
    let small : de_rec_len blk off < 65536 =
      omega (arith, hbytes (off + 4), hbytes (off + 4 + 1)) in
    let place : add32 off (de_rec_len blk off) ≡ off + de_rec_len blk off = ground arith in
    let rest =
      find_from-Finds fuel (off + de_rec_len blk off) size bs blk name hb hbytes (omega arith) en in
    rw (inside, goes_on, place) (found_or_later blk off name rest)

entries : (n off end : ℕ) (blk : ℕ → ℕ) → end ≤ off + n → (es : List Entry) × Entries blk end off es
entries zero off end blk h = ([], Entries.past off (omega arith))
entries (suc n) off end blk h = elim (Bool-cases (ltb off end)) [
  | inr over ↦ ([], Entries.past off (ground arith))
  | inl within ↦ elim (Bool-cases (de_rec_len blk off == 0)) [
    | inl last ↦ ([], Entries.stop off (ground arith) (ground arith))
    | inr goes_on ↦
        let nonzero : de_rec_len blk off ≢ 0 = ground arith in
        let rest = entries n (off + de_rec_len blk off) end blk (omega (arith, nonzero)) in
        (entry_at blk off ∷ rest.0, Entries.next off (ground arith) nonzero rest.1)
  ]
]

-- The entries of a directory from `off` up to `end`, as the search walks over them, with their names lie
-- in the 4096 bytes of the static buffer.
pub data InBuffer (blk : ℕ → ℕ) (end : ℕ) : ℕ → Type 0 where
  all_read : (off : ℕ) → end ≤ off → InBuffer blk end off
  no_length : (off : ℕ) → off + 8 ≤ 4096 → de_rec_len blk off ≡ 0 → InBuffer blk end off
  entry :
      (off : ℕ)
      → off + 8 + de_name_len blk off ≤ 4096
      → de_rec_len blk off ≢ 0
      → InBuffer blk end (off + de_rec_len blk off)
      → InBuffer blk end off

-- For a mounted file system, with blocks of at most 4096 bytes that inodes fit into, and a directory whose
-- entries do not reach behind the static buffer, the directory's block is a list of entries, and
-- `ext2_find` returns the inode of the first of them that is in use and has the name, or 0.
pub ext2_find-Finds :
    (drive : Drive) (dir_ino : ℕ) (name : List ℕ) (raw : ℕ → ℕ) (s : Ext2)
    → IsMounted s
    → ((a : ℕ) → s.blk_b a < 256)
    → let (inode, s1) = ext2_read_inode drive dir_ino raw s in
      let blk = ext2_read_block drive s1 (i_block inode 0) s1.blk_b in
      InBuffer blk (min (i_size inode) s.block_size) 0
      → (es : List Entry) × Entries blk (min (i_size inode) s.block_size) 0 es
        × Finds name es (ext2_find drive dir_ino name raw s).0
unfolding ext2_find ext2_read_inode
ext2_find-Finds drive dir_ino name raw s v hbytes inside =
    let hb : s.block_size + 65536 ≤ 2 ^ 32 = omega (arith, v.fits) in
    let (inode, s1) = ext2_read_inode drive dir_ino raw s in
    let blk = ext2_read_block drive s1 (i_block inode 0) s1.blk_b in
    let (es, en) =
      entries (min (i_size inode) s.block_size) 0 (min (i_size inode) s.block_size) blk
        (omega arith) in
    (
      es,
      en,
      find_from-Finds (s.block_size + 1) 0 (i_size inode) s.block_size blk name hb
          (read_byte drive s1 (i_block inode 0) s1.blk_b
            (record {
              whole = v.whole;
              mounted = v.mounted;
              fits = v.fits;
              inodes = v.inodes;
              inode_fits = v.inode_fits;
            })
            hbytes)
          (omega arith) en,
    )
