-- ===== src/Mm.antt =====
-- mm/: physical pages (pmm.c), page tables (paging.c), and mapping (vmm.c).
pub mod Pmm
pub mod Paging
pub mod Vmm
