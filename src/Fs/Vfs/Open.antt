-- ===== src/Fs/Vfs/Open.antt =====
-- What `vfs_open` does to the pool.
use pepin_os.Base.{
  ℕ, zero, suc, ◌+◌, ◌≤◌, ◌<◌, ◌≡◌, refl, sym, ap, ◌∙◌, ◌≢◌, ◌⊎◌, inl, inr, arith, ◌==◌, ltb, leb,
  min, ◌&&◌, none, some, List, [], ◌∷◌, if◌then◌else◌, for_range, update, update_self, length,
  get_elem?, Bool-cases,
}
use mathlib.Core.Path.{subst}
use pepin_os.Drivers.Ide.{Drive}
use pepin_os.Fs.Ext2.Block.{ext2_inode_size_lem}
use pepin_os.Fs.Ext2.{i_size, ext2_read_inode, ext2_find, ext2_inode_size}
use pepin_os.Fs.Vfs.{
  vfs_init, ReadFn, FsNode, Vfs, free_node, skip_slash, copy_name, opened, vfs_open, vfs_close,
}

-- The text that the bytes of a name hold: at most 63 bytes of the path, and a 0.
pub record IsName (path : List ℕ) (name : ℕ → ℕ) : Type 0 where
  pub bytes : (j c : ℕ) → j < 63 → get_elem? path j ≡ some c → name j ≡ c
  pub ends : name (min 63 (length path)) ≡ 0

copy_name_before :
    (n i : ℕ) (path : List ℕ) (name : ℕ → ℕ) (j : ℕ) → j < i → copy_name n i path name j ≡ name j
unfolding copy_name
copy_name_before zero i path name j h = ground arith
copy_name_before (suc n) i [] name j h = ground arith
copy_name_before (suc n) i (c ∷ cs) name j h =
    copy_name_before n (suc i) cs (update name i c) j (omega arith) ∙ ground arith

copy_name_byte :
    (n i : ℕ) (path : List ℕ) (name : ℕ → ℕ) (j c : ℕ)
    → j < n
    → get_elem? path j ≡ some c
    → copy_name n i path name (i + j) ≡ c
unfolding copy_name
copy_name_byte zero i path name j c h e = absurd (omega arith)
copy_name_byte (suc n) i [] name j c h e = cc e
copy_name_byte (suc n) i (x ∷ xs) name zero c h e =
    let same : x ≡ c = cc e in
    copy_name_before n (suc i) xs (update name i x) (i + 0) (omega arith) ∙ ground (arith, same)
copy_name_byte (suc n) i (x ∷ xs) name (suc j) c h e =
    ap (copy_name n (suc i) xs (update name i x)) (omega arith)
    ∙ copy_name_byte n (suc i) xs (update name i x) j c (omega arith) e

copy_name_end :
    (n i : ℕ) (path : List ℕ) (name : ℕ → ℕ) → copy_name n i path name (i + min n (length path)) ≡ 0
unfolding copy_name
copy_name_end zero i path name = ground arith
copy_name_end (suc n) i [] name = ground arith
copy_name_end (suc n) i (x ∷ xs) name =
    ap (copy_name n (suc i) xs (update name i x)) (omega arith)
    ∙ copy_name_end n (suc i) xs (update name i x)

free_node_lem :
    (n i : ℕ) (pool : ℕ → FsNode)
    → ((free_node n i pool ≡ none) × ((j : ℕ) → i ≤ j → j < i + n → (pool j).used ≢ 0))
      ⊎ ((k : ℕ) × (free_node n i pool ≡ some k)
          × (i ≤ k)
          × (k < i + n)
          × ((pool k).used ≡ 0)
          × ((j : ℕ) → i ≤ j → j < k → (pool j).used ≢ 0))
unfolding free_node
free_node_lem zero i pool = inl (refl, λ j a b. absurd (omega arith))
free_node_lem (suc n) i pool = elim (Bool-cases ((pool i).used == 0)) [
  | inl free ↦
      rw free (inr (i, refl, omega arith, omega arith, ground arith, λ j a b. absurd (omega arith)))
  | inr taken ↦ elim (free_node_lem n (suc i) pool) [
    | inl (full, all) ↦ rw taken (
        inl (
          full,
          λ j a b. elim (Bool-cases (i == j)) [
            | inl same ↦ let e : i ≡ j = ground arith in rw (sym e) (ground arith)
            | inr later ↦ all j (ground arith) (omega arith)
          ],
        ))
    | inr (k, found, lo, hi, free, first) ↦ rw taken (
        inr (
          k,
          found,
          omega arith,
          omega arith,
          free,
          λ j a b. elim (Bool-cases (i == j)) [
            | inl same ↦ let e : i ≡ j = ground arith in rw (sym e) (ground arith)
            | inr later ↦ first j (ground arith) b
          ],
        ))
  ]
]

name_lem : (path : List ℕ) (name : ℕ → ℕ) → IsName path (copy_name 63 0 path name)
name_lem path name = record {
  bytes = λ j c h e.
      ap (copy_name 63 0 path name) (omega arith) ∙ copy_name_byte 63 0 path name j c h e;
  ends = ap (copy_name 63 0 path name) (omega arith) ∙ copy_name_end 63 0 path name;
}

-- The node that `vfs_open` gives for a path.
pub record Opened (drive : Drive) (stack : ℕ → ℕ) (path : List ℕ) (v v' : Vfs) (i : ℕ)
    : Type 0 where
  pub place : i < 8
  pub free : (v.node_pool i).used ≡ 0
  pub first : (j : ℕ) → j < i → (v.node_pool j).used ≢ 0
  pub used : (v'.node_pool i).used ≡ 1
  pub inode : (v'.node_pool i).inode ≡ (ext2_find drive 2 (skip_slash path) stack v.fs).0
  pub exists : (v'.node_pool i).inode ≢ 0
  pub length : (v'.node_pool i).length ≡ (
      let found = ext2_find drive 2 (skip_slash path) stack v.fs in
      i_size (ext2_read_inode drive found.0 stack found.1).0)
  pub flags : (v'.node_pool i).flags ≡ 1
  pub read : (v'.node_pool i).read ≡ ReadFn.ext2_node
  pub name : IsName (skip_slash path) (v'.node_pool i).name
  pub others : (j : ℕ) → i ≢ j → v'.node_pool j ≡ v.node_pool j

pub vfs_open_cases :
    (drive : Drive) (stack : ℕ → ℕ) (path : List ℕ) (v : Vfs)
    → let out = vfs_open drive stack path v in
      ((out.0 ≡ none)
        × (out.1.node_pool ≡ v.node_pool)
        × (((j : ℕ) → j < 8 → (v.node_pool j).used ≢ 0)
            ⊎ ((ext2_find drive 2 (skip_slash path) stack v.fs).0 ≡ 0)))
      ⊎ ((i : ℕ) × (out.0 ≡ some i) × Opened drive stack path v out.1 i)
unfolding vfs_open opened
vfs_open_cases drive stack path v = elim (free_node_lem 8 0 v.node_pool) [
  | inl (full, all) ↦
      rw (vfs_open, full) (inl (refl, refl, inl (λ j h. all j (omega arith) (omega arith))))
  | inr (i, found, lo, hi, free, first) ↦
      rw (vfs_open, found)
        (elim (Bool-cases ((ext2_find drive 2 (skip_slash path) stack v.fs).0 == 0)) [
          | inl missing ↦ rw missing (inl (refl, refl, inr (ground arith)))
          | inr present ↦
              let find = ext2_find drive 2 (skip_slash path) stack v.fs in
              let node =
                opened find.0 (ext2_inode_size drive find.0 stack find.1).0 (skip_slash path)
                  (v.node_pool i) in
              let self = update_self v.node_pool i node in
              rw present (
                inr (
                  i,
                  refl,
                  record {
                    place = hi;
                    free = free;
                    first = λ j h. first j (omega arith) h;
                    used = ap (λ (n : FsNode). n.used) self;
                    inode = ap (λ (n : FsNode). n.inode) self;
                    exists = λ z.
                        absurd
                          (ground (arith, present, sym (ap (λ (n : FsNode). n.inode) self) ∙ z));
                    length =
                        ap (λ (n : FsNode). n.length) self
                        ∙ ext2_inode_size_lem drive find.0 stack find.1;
                    flags = ap (λ (n : FsNode). n.flags) self;
                    read = ap (λ (n : FsNode). n.read) self;
                    name =
                        subst (IsName (skip_slash path)) (sym (ap (λ (n : FsNode). n.name) self))
                          (name_lem (skip_slash path) (v.node_pool i).name);
                    others = λ j ne. ground (arith, ne);
                  },
                ))
        ])
]

pub vfs_close_lem :
    (n : ℕ) (v : Vfs) (m : ℕ)
    → ((vfs_close (some n) v).node_pool m).used ≡ (if n == m then 0 else (v.node_pool m).used)
unfolding vfs_close
vfs_close_lem n v m = elim (Bool-cases (n == m)) [
  | inl same ↦
      let e : n ≡ m = ground arith in
      rw (sym e) (
        ap (λ (x : FsNode). x.used)
          (update_self v.node_pool n (record (v.node_pool n) { used = 0 }))
        ∙ ground arith)
  | inr other ↦ ground arith
]

cleared :
    (n i : ℕ) (pool : ℕ → FsNode) (j : ℕ)
    → (for_range n i (λ k p. update p k (record (p k) { used = 0 })) pool j).used
      ≡ (if leb i j && ltb j (i + n) then 0 else (pool j).used)
cleared zero i pool j = ground arith
cleared (suc n) i pool j =
    cleared n (suc i) (update pool i (record (pool i) { used = 0 })) j ∙ ground arith

of_eight : (i x : ℕ) → i < 8 → (if leb 0 i && ltb i (0 + 8) then 0 else x) ≡ 0
of_eight i x h = ground (arith, h)

-- After `vfs_init` all places are free, and the file system is the same.
pub vfs_init_lem :
    (v : Vfs) → ((vfs_init v).fs ≡ v.fs) × ((i : ℕ) → i < 8 → ((vfs_init v).node_pool i).used ≡ 0)
unfolding vfs_init
vfs_init_lem v = (refl, λ i h. cleared 8 0 v.node_pool i ∙ of_eight i (v.node_pool i).used h)
