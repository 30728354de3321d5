-- ===== src/User.antt =====
-- user/: the programs that run in ring 3.
pub mod Shell
pub mod Hello
