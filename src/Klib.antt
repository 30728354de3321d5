-- ===== src/Klib.antt =====
-- lib/: the intrusive circular list (list.h).
pub mod List
pub mod Strings
