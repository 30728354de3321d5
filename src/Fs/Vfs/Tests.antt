-- ===== src/Fs/Vfs/Tests.antt =====
-- Opening a file with an empty pool on an empty disk.
use pepin_os.Base.{ℕ, ◌==◌, List, [], ◌∷◌, if◌then◌else◌}
use pepin_os.Drivers.Ide.{Drive}
use pepin_os.Fs.Vfs.{ReadFn, Vfs}

abbrev disk : Drive
disk sector word = if word == 0 then 11 else 0x0106

abbrev zeros : ℕ → ℕ
zeros _ = 0

abbrev vfs : Vfs
vfs = record {
  node_pool = λ i. record {
    name = zeros;
    flags = 0;
    inode = 0;
    length = 0;
    read = ReadFn.no_read;
    used = if i == 0 then 1 else 0;
  };
  fs = record {
    block_size = 1024;
    inode_size = 128;
    inodes_per_group = 32;
    bgd = zeros;
    part_lba = 0;
    blk_a = zeros;
    blk_b = zeros;
  };
}

abbrev path : List ℕ
path = b'/' ∷ b'h' ∷ b'i' ∷ []
