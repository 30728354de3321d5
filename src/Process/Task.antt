-- ===== src/Process/Task.antt =====
-- The records of process/scheduler.h and fs/vfs.h: a task, its open files and its signal state.
use pepin_os.Base.{
  ℕ, ◌≡◌, ◌∙◌, arith, ltb, Option, none, if◌then◌else◌, for_range, update, for_range-update,
}

-- `fd_t`. The pointer to a node of the VFS is its place in the pool of nodes.
pub record Fd : Type 0 where
  pub node : Option ℕ
  pub offset : ℕ
  pub used : ℕ

-- `task_t` without its `list` member, which the scheduler's links hold.
pub record Task : Type 0 where
  pub regs : ℕ → ℕ
  pub cr3 : ℕ
  pub kstack_top : ℕ
  pub active : ℕ
  pub files : ℕ → Fd
  pub sig_pending : ℕ
  pub sig_handlers : ℕ → ℕ
  pub sig_saved_regs : ℕ → ℕ
  pub sig_in_handler : ℕ

abbrev pub max_fd : ℕ
max_fd = 8

abbrev pub nsig : ℕ
nsig = 32

-- `for (i = 0; i < 13; i++) dst[i] = src[i];`
unfoldable pub copy_regs : (ℕ → ℕ) → (ℕ → ℕ) → ℕ → ℕ
copy_regs src dst = for_range 13 0 (λ i r. update r i (src i)) dst

abbrev pub closed : Fd
closed = record { node = none; offset = 0; used = 0 }

pub copy_regs_lem :
    (src dst : ℕ → ℕ) (i : ℕ) → copy_regs src dst i ≡ (if ltb i 13 then src i else dst i)
unfolding copy_regs
copy_regs_lem src dst i = for_range-update 13 0 src dst i ∙ ground arith
