-- ===== src/Boot.antt =====
-- The start of the kernel: the partition (kernel.c) and the first tasks (task.c).
pub mod Partition
pub mod Start
pub mod Tasks
