-- ===== src/Fs/Vfs.antt =====
-- fs/vfs.c and fs/vfs.h: the pool of nodes over ext2. A pointer to a node is its place in
-- `node_pool`, `none` the null pointer. A path is the list of its bytes before the 0 that ends it.
-- `stack` stands for what the local variables of a function hold before they are written.
pub mod Open
mod Tests
use pepin_os.Base.{
  ℕ, zero, suc, ◌==◌, Option, none, some, List, [], ◌∷◌, if◌then◌else◌, for_range, update,
}
use pepin_os.Drivers.Ide.{Drive}
use pepin_os.Fs.Ext2.{Ext2, ext2_find, ext2_inode_size, ext2_pread}

-- What the member `read` of a node points to.
pub data ReadFn : Type 0 where
  no_read : ReadFn
  ext2_node : ReadFn

pub record FsNode : Type 0 where
  pub name : ℕ → ℕ
  pub flags : ℕ
  pub inode : ℕ
  pub length : ℕ
  pub read : ReadFn
  pub used : ℕ

abbrev pub vfs_pool_size : ℕ
vfs_pool_size = 8

pub record Vfs : Type 0 where
  pub node_pool : ℕ → FsNode
  pub fs : Ext2

pub vfs_init : Vfs → Vfs
vfs_init v = record v {
  node_pool = for_range vfs_pool_size 0 (λ i p. update p i (record (p i) { used = 0 })) v.node_pool;
}

-- The first free place from `i` on, among the next `n`.
pub free_node : ℕ → ℕ → (ℕ → FsNode) → Option ℕ
free_node zero i pool = none
free_node (suc n) i pool =
    let rest = free_node n (suc i) pool in if (pool i).used == 0 then some i else rest

-- `if (*path == '/') path++;`
pub skip_slash : List ℕ → List ℕ
skip_slash [] = []
skip_slash (c ∷ cs) = if c == b'/' then cs else c ∷ cs

-- `for (i = ...; i < 63 && path[i]; i++) name[i] = path[i]; name[i] = 0;` with the rounds left.
pub copy_name : ℕ → ℕ → List ℕ → (ℕ → ℕ) → ℕ → ℕ
copy_name zero i path name = update name i 0
copy_name (suc n) i [] name = update name i 0
copy_name (suc n) i (c ∷ cs) name = copy_name n (suc i) cs (update name i c)

-- The node that `vfs_open` fills in, over the old one.
pub opened : (ino len : ℕ) → List ℕ → FsNode → FsNode
opened ino len path node = record {
  name = copy_name 63 0 path node.name;
  flags = 1;
  inode = ino;
  length = len;
  read = ReadFn.ext2_node;
  used = 1;
}

pub vfs_open : Drive → (stack : ℕ → ℕ) → List ℕ → Vfs → Option ℕ × Vfs
vfs_open drive stack path v = elim (free_node vfs_pool_size 0 v.node_pool) [
  | none ↦ (none, v)
  | some i ↦
      let name = skip_slash path in
      let found = ext2_find drive 2 name stack v.fs in
      let size = ext2_inode_size drive found.0 stack found.1 in
      if found.0 == 0 then (none, record v { fs = found.1 }) else (
        some i,
        record {
          node_pool = update v.node_pool i (opened found.0 size.0 name (v.node_pool i));
          fs = size.1;
        },
      )
]

pub vfs_close : Option ℕ → Vfs → Vfs
vfs_close none v = v
vfs_close (some i) v = record v {
  node_pool = update v.node_pool i (record (v.node_pool i) { used = 0 });
}

-- The number of bytes that were read, the caller's buffer, and the state.
pub vfs_read :
    Drive → (stack : ℕ → ℕ) → Option ℕ → (offset size : ℕ) → (ℕ → ℕ) → Vfs → ℕ × (ℕ → ℕ) × Vfs
vfs_read drive stack none offset size buf v = (0, buf, v)
vfs_read drive stack (some i) offset size buf v = elim (v.node_pool i).read [
  | ReadFn.no_read ↦ (0, buf, v)
  | ReadFn.ext2_node ↦
      let out = ext2_pread drive (v.node_pool i).inode buf offset size stack v.fs in
      (out.0, out.1, record v { fs = out.2 })
]
