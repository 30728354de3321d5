-- ===== src/Arch.antt =====
-- arch/: the descriptor tables.
pub mod Gdt
pub mod Idt
pub mod Pic
pub mod Exceptions
mod Tests
