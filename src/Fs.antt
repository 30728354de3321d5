-- ===== src/Fs.antt =====
-- fs/: the ext2 reader, the pool of nodes over it, and the loader of programs.
pub mod Ext2
pub mod Vfs
pub mod Elf
