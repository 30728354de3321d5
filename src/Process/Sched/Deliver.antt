-- ===== src/Process/Sched/Deliver.antt =====
-- The delivery of a signal: when it happens, and what it does to the task and to the context.
use pepin_os.Base.{
  true, ℕ, ◌^◌, ◌≤◌, ◌<◌, ◌≡◌, refl, ap, ◌∙◌, ◌≢◌, ◌⊎◌, inl, inr, arith, ◌==◌, ltb, bit_and, not,
  ◌&&◌, ◌∷◌, if◌then◌else◌, Bool-cases, sub32, shl32, shl32-one, pow-lt-u32,
}
use pepin_os.Base.Bits.{bit, bit-le_one, not32, bit-bit_and, bit-complement, bit-pow}
use pepin_os.Process.Task.{Task, copy_regs_lem}
use pepin_os.Process.Sched.{Cpu, find_signal, inject, deliver}
use pepin_os.Process.Sched.Pick.{find_signal_lem}

-- The number that `do_switch` looks at: the lowest pending one, 32 if none is.
abbrev pub picked : Task → ℕ
picked t = find_signal 31 1 t.sig_pending

-- No signal is delivered: none is pending, a handler is running, or the lowest has no handler.
abbrev pub Quiet : Task → Type 0
Quiet t =
    (t.sig_pending ≡ 0) ⊎ (t.sig_in_handler ≢ 0) ⊎ (picked t ≡ 32) ⊎ (t.sig_handlers (picked t) ≡ 0)

-- The signal `sig` is delivered to `t`, which was about to go on with `cpu`.
pub record Delivered (t : Task) (cpu : Cpu) (sig : ℕ) (t' : Task) (cpu' : Cpu) : Type 0 where
  pub not_running : t.sig_in_handler ≡ 0
  pub pending : bit t.sig_pending sig ≡ 1
  pub lowest : (j : ℕ) → 1 ≤ j → j < sig → bit t.sig_pending j ≡ 0
  pub number : (1 ≤ sig) × (sig < 32)
  pub handled : t.sig_handlers sig ≢ 0
  pub saved : (i : ℕ) → i < 13 → t'.sig_saved_regs i ≡ cpu.ctx i
  pub running : t'.sig_in_handler ≡ 1
  pub cleared :
      (j : ℕ) → j < 32 → bit t'.sig_pending j ≡ (if sig == j then 0 else bit t.sig_pending j)
  pub eip : cpu'.ctx 8 ≡ t.sig_handlers sig
  pub esp : cpu'.ctx 11 ≡ sub32 (sub32 (cpu.ctx 11) 4) 4
  pub rest : (i : ℕ) → i ≢ 8 → i ≢ 11 → cpu'.ctx i ≡ cpu.ctx i
  pub frame :
      cpu'.stores
      ≡ (cpu.cr3, sub32 (sub32 (cpu.ctx 11) 4) 4, 0)
        ∷ (cpu.cr3, sub32 (cpu.ctx 11) 4, sig)
        ∷ cpu.stores

bit-clear :
    (sig j p : ℕ)
    → sig < 32
    → j < 32
    → bit (bit_and p (not32 (shl32 1 sig))) j ≡ (if sig == j then 0 else bit p j)
bit-clear sig j p h hj = ground (
  arith,
  shl32-one sig h,
  pow-lt-u32 sig h,
  bit-bit_and p (not32 (2 ^ sig)) j,
  bit-complement 32 (2 ^ sig) j,
  bit-pow sig j,
  bit-le_one p j,
)

inject_lem :
    (sig : ℕ) (t : Task) (cpu : Cpu)
    → t.sig_in_handler ≡ 0
    → sig ≡ picked t
    → sig < 32
    → t.sig_handlers sig ≢ 0
    → Delivered t cpu sig (inject sig t cpu).0 (inject sig t cpu).1
unfolding inject
inject_lem sig t cpu free e lt handled =
    let p = find_signal_lem 31 1 t.sig_pending refl in
    record {
      not_running = free;
      pending = ap (bit t.sig_pending) e ∙ p.2 (omega arith);
      lowest = λ j a b. p.3 j a (omega arith);
      number = (omega (arith, p.0), lt);
      handled = handled;
      saved = λ i h. ground (arith, copy_regs_lem cpu.ctx t.sig_saved_regs i);
      running = refl;
      cleared = λ j h. bit-clear sig j t.sig_pending lt h;
      eip = refl;
      esp = refl;
      rest = λ i a b. ground arith;
      frame = refl;
    }

pub deliver-Delivered :
    (t : Task) (cpu : Cpu)
    → t.sig_pending ≢ 0
    → t.sig_in_handler ≡ 0
    → picked t < 32
    → t.sig_handlers (picked t) ≢ 0
    → Delivered t cpu (picked t) (deliver t cpu).0 (deliver t cpu).1
unfolding deliver
deliver-Delivered t cpu some_pending free lt handled =
    let on : not (t.sig_pending == 0) && (t.sig_in_handler == 0) ≡ true =
      ground (arith, some_pending, free) in
    let go : ltb (picked t) 32 && not (t.sig_handlers (picked t) == 0) ≡ true =
      ground (arith, lt, handled) in
    rw (on, go) (inject_lem (picked t) t cpu free refl lt handled)

pub deliver_lem :
    (t : Task) (cpu : Cpu)
    → (Quiet t × (deliver t cpu ≡ (t, cpu)))
      ⊎ ((sig : ℕ) × Delivered t cpu sig (deliver t cpu).0 (deliver t cpu).1)
unfolding deliver
deliver_lem t cpu = elim (Bool-cases (not (t.sig_pending == 0) && (t.sig_in_handler == 0))) [
  | inr off ↦ rw off (inl (ground arith, refl))
  | inl on ↦ rw on (elim (Bool-cases (ltb (picked t) 32 && not (t.sig_handlers (picked t) == 0))) [
    | inr off ↦ rw off (inl (ground (arith, find_signal_lem 31 1 t.sig_pending refl), refl))
    | inl go ↦ rw go (
        inr
          (picked t, inject_lem (picked t) t cpu (ground arith) refl (ground arith) (ground arith)))
  ])
]

-- A delivery changes nothing of the task but its signal state, nor CR3 nor the kernel stack.
pub deliver_keeps :
    (t : Task) (cpu : Cpu)
    → let (t', cpu') = deliver t cpu in
      (t'.regs ≡ t.regs)
      × (t'.cr3 ≡ t.cr3)
      × (t'.kstack_top ≡ t.kstack_top)
      × (t'.files ≡ t.files)
      × (t'.sig_handlers ≡ t.sig_handlers)
      × (cpu'.cr3 ≡ cpu.cr3)
      × (cpu'.esp0 ≡ cpu.esp0)
unfolding deliver inject
deliver_keeps t cpu = ground arith
