-- ===== src/Process/Syscall/Signal.antt =====
-- The end of a signal handler.
use pepin_os.Base.{ℕ, ◌<◌, ◌≡◌, refl, ap, ◌∙◌, ◌≢◌, arith, ◌==◌, false, some, update_self}
use pepin_os.Base.Int.{ℤ, pos}
use pepin_os.Drivers.Ide.{Drive}
use pepin_os.Process.Task.{Task}
use pepin_os.Process.Sched.{Cpu, deliver, sched_current_task, set_task}
use pepin_os.Process.Sched.Deliver.{Delivered}
use pepin_os.Process.Syscall.{Kernel, Outcome, restored, sys_sigreturn, syscall_handler}

-- The words of the frame on the kernel's stack, where the call was made with `old` there. The words
-- 4 to 8 are what `iret` goes on with.
pub record Resumes (ctx old frame : ℕ → ℕ) : Type 0 where
  pub eax : frame 0 ≡ ctx 7
  pub ebx : frame 1 ≡ ctx 4
  pub ecx : frame 2 ≡ ctx 6
  pub edx : frame 3 ≡ ctx 5
  pub eip : frame 4 ≡ ctx 8
  pub cs : frame 5 ≡ ctx 9
  pub eflags : frame 6 ≡ ctx 10
  pub esp : frame 7 ≡ ctx 11
  pub ss : frame 8 ≡ ctx 12
  pub behind : (i : ℕ) → 8 < i → frame i ≡ old i

-- How the system call ends in the handler of the task `c`.
pub record HandlerEnds (ctx old : ℕ → ℕ) (c : ℕ) (k : Kernel) (out : Outcome) : Type 0 where
  pub frame : ℕ → ℕ
  pub after : Kernel
  pub returned : out ≡ Outcome.returns (pos 0) frame after
  pub resumes : Resumes ctx old frame
  pub finished : (after.sched.pool c).sig_in_handler ≡ 0
  pub pending : (after.sched.pool c).sig_pending ≡ (k.sched.pool c).sig_pending
  pub others : (i : ℕ) → c ≢ i → after.sched.pool i ≡ k.sched.pool i

sigreturn_running :
    (frame : ℕ → ℕ) (c : ℕ) (k : Kernel)
    → sched_current_task k.sched ≡ some c
    → ((k.sched.pool c).sig_in_handler == 0) ≡ false
    → sys_sigreturn frame k ≡ (
      pos 0,
      restored (k.sched.pool c).sig_saved_regs frame,
      record k { sched = set_task c (record (k.sched.pool c) { sig_in_handler = 0 }) k.sched },
    )
unfolding sys_sigreturn
sigreturn_running frame c k hc running = rw (hc, running) refl

-- If a signal has been delivered to a task that was about to go on with the context `cpu.ctx`, and the
-- task is current and still has what the delivery saved, then `SYS_SIGRETURN` returns 0 and has put 9 of
-- the 13 words of that context into the frame of the call: EIP, CS, EFLAGS, ESP and SS, with which
-- `iret` goes on, and EAX, EBX, ECX and EDX, which the stub of the system call drops. It writes no
-- other word of the stack: EDI, ESI and EBP are not given back. The task can take the next signal, and
-- what is pending and the other tasks are as they were.
pub sigreturn-Delivered :
    (drive : Drive) (stack frame : ℕ → ℕ) (ebx ecx edx sig c : ℕ) (t : Task) (cpu : Cpu)
    (k : Kernel)
    → Delivered t cpu sig (deliver t cpu).0 (deliver t cpu).1
    → sched_current_task k.sched ≡ some c
    → (k.sched.pool c).sig_saved_regs ≡ (deliver t cpu).0.sig_saved_regs
    → (k.sched.pool c).sig_in_handler ≡ (deliver t cpu).0.sig_in_handler
    → HandlerEnds cpu.ctx frame c k (syscall_handler drive stack frame 10 ebx ecx edx k)
unfolding syscall_handler restored set_task
sigreturn-Delivered drive stack frame ebx ecx edx sig c t cpu k d hc hs hh =
    let running : (k.sched.pool c).sig_in_handler == 0 ≡ false = ground (arith, hh, d.running) in
    let saved : (i : ℕ) → i < 13 → (k.sched.pool c).sig_saved_regs i ≡ cpu.ctx i =
      λ i h. ap (λ (r : ℕ → ℕ). r i) hs ∙ d.saved i h in
    record {
      frame = restored (k.sched.pool c).sig_saved_regs frame;
      after = record k {
        sched = set_task c (record (k.sched.pool c) { sig_in_handler = 0 }) k.sched;
      };
      returned =
          ap (λ (r : ℤ × (ℕ → ℕ) × Kernel). Outcome.returns r.0 r.1 r.2)
            (sigreturn_running frame c k hc running);
      resumes = record {
        eax = saved 7 (omega arith);
        ebx = saved 4 (omega arith);
        ecx = saved 6 (omega arith);
        edx = saved 5 (omega arith);
        behind = λ i h. ground (arith, h);
        eip = saved 8 (omega arith);
        cs = saved 9 (omega arith);
        eflags = saved 10 (omega arith);
        esp = saved 11 (omega arith);
        ss = saved 12 (omega arith);
      };
      finished =
          ap (λ (u : Task). u.sig_in_handler)
            (update_self k.sched.pool c (record (k.sched.pool c) { sig_in_handler = 0 }));
      pending =
          ap (λ (u : Task). u.sig_pending)
            (update_self k.sched.pool c (record (k.sched.pool c) { sig_in_handler = 0 }));
      others = λ i ne. ground (arith, ne);
    }
