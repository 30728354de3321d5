-- ===== src/Process.antt =====
-- process/: tasks, the scheduler, signals and system calls.
pub mod Task
pub mod Sched
pub mod Syscall
