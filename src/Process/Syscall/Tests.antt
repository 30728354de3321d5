-- ===== src/Process/Syscall/Tests.antt =====
-- A kernel whose task 0 is in the handler of SIGUSR1.
use pepin_os.Base.{ℕ, ◌*◌, ◌^◌, refl, arith, ◌==◌, some, [], ◌∷◌, if◌then◌else◌}
use pepin_os.Base.Int.{pos}
use pepin_os.Fs.Vfs.{ReadFn}
use pepin_os.Process.Task.{Task, Fd, closed}
use pepin_os.Process.Sched.{Cpu, deliver, find_signal}
use pepin_os.Process.Sched.Deliver.{Delivered, deliver-Delivered}
use pepin_os.Process.Syscall.{Kernel, syscall_handler, sys_open, sys_close}
use pepin_os.Process.Syscall.Table.{written, open-IsValid}
use pepin_os.Process.Syscall.Files.{
  FilesAreValid, AfterCall, in_use, sys_open-FilesAreValid, sys_close-FilesAreValid,
}
use pepin_os.Process.Syscall.Signal.{HandlerEnds, sigreturn-Delivered}

abbrev zeros : ℕ → ℕ
zeros _ = 0

abbrev task : Task
task = record {
  regs = zeros;
  cr3 = 0x20_5000;
  kstack_top = 0x32_1000;
  active = 1;
  files = λ _. closed;
  sig_pending = 2 ^ 10;
  sig_handlers = λ i. if i == 10 then 0x4000_0800 else 0;
  sig_saved_regs = zeros;
  sig_in_handler = 0;
}

abbrev user : Cpu
user = record { ctx = λ i. if i == 9 then 0x23 else 7 * i; cr3 = 0x20_5000; esp0 = 0; stores = [] }

abbrev kernel : Kernel
kernel = record {
  sched = record {
    links = record { next = zeros; prev = zeros };
    pool = λ _. (deliver task user).0;
    ntasks = 1;
    cur_task = some 0;
  };
  vfs = record {
    node_pool = λ _. record {
      name = zeros;
      flags = 0;
      inode = 0;
      length = 0;
      read = ReadFn.no_read;
      used = 0;
    };
    fs = record {
      block_size = 1024;
      inode_size = 128;
      inodes_per_group = 32;
      bgd = zeros;
      part_lba = 0;
      blk_a = zeros;
      blk_b = zeros;
    };
  };
  keyboard = record { kb_buf = zeros; kb_head = 0; kb_tail = 0; ctrl_held = 0 };
  screen = record { video = zeros; kx = pos 0; ky = pos 0; kattr = 7; cursor = 0 };
  mem = zeros;
}

sent : Delivered task user 10 (deliver task user).0 (deliver task user).1
unfolding find_signal
sent = deliver-Delivered task user (omega arith) refl (omega arith) (omega arith)

sigreturn-Delivered_example :
    HandlerEnds user.ctx zeros 0 kernel (syscall_handler (λ _ _. 0) zeros zeros 10 0 0 0 kernel)
sigreturn-Delivered_example =
    sigreturn-Delivered (λ _ _. 0) zeros zeros 0 0 0 10 0 task user kernel sent refl refl refl

-- The same kernel with the file 3 of the task 0 open, on the node 0.
abbrev file : Fd
file = record { node = some 0; offset = 7; used = 1 }

abbrev kernel_with_file : Kernel
kernel_with_file = record kernel {
  sched = record (kernel.sched) {
    pool = λ i. record task { files = written 0 3 file (λ _ _. closed) i };
  };
  vfs = record (kernel.vfs) {
    node_pool = λ n. record (kernel.vfs.node_pool n) { used = if n == 0 then 1 else 0 };
  };
}

kernel_with_file-valid : FilesAreValid kernel_with_file
kernel_with_file-valid =
    open-IsValid (λ _ _. closed) (λ _. 0) (in_use kernel_with_file.vfs) 0 3 0 file
      (record { node = λ i fd a b u. absurd (u refl); apart = λ i fd j gd n h. absurd (h.2 refl) })
      refl refl (omega arith) (λ m ne. ground arith)

sys_close-FilesAreValid_example :
    AfterCall FilesAreValid (sys_close (some 0) (pos 3) kernel_with_file)
sys_close-FilesAreValid_example =
    sys_close-FilesAreValid (some 0) (pos 3) kernel_with_file kernel_with_file-valid

sys_open-FilesAreValid_example :
    AfterCall FilesAreValid (sys_open (λ _ w. w) zeros (some 0) (b'h' ∷ b'i' ∷ []) kernel_with_file)
sys_open-FilesAreValid_example =
    sys_open-FilesAreValid (λ _ w. w) zeros (some 0) (b'h' ∷ b'i' ∷ []) kernel_with_file
      kernel_with_file-valid
