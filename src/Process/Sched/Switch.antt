-- ===== src/Process/Sched/Switch.antt =====
-- `do_switch`: whose context is saved, whose is restored, and who comes next.
use pepin_os.Base.{
  ℕ, suc, ◌<◌, ◌≡◌, refl, sym, ap, ◌∙◌, ◌≢◌, ◌⊎◌, inl, inr, arith, ◌==◌, bit_and, some,
  if◌then◌else◌, update, update_self,
}
use mathlib.Core.Path.{subst}
use pepin_os.Process.Task.{Task, copy_regs, copy_regs_lem}
use pepin_os.Process.Sched.{Sched, Cpu, deliver, next_task, switch_from, do_switch}
use pepin_os.Process.Sched.Ring.{IsValid, next_task_lem}
use pepin_os.Process.Sched.Deliver.{Quiet, Delivered, deliver_lem, deliver_keeps}

-- The timer interrupted user code.
abbrev pub FromUser : Cpu → Type 0
FromUser cpu = bit_and (cpu.ctx 9) 3 ≢ 0

-- An interrupt in the kernel switches nothing.
pub do_switch_in_kernel :
    (s : Sched) (cpu : Cpu) → bit_and (cpu.ctx 9) 3 ≡ 0 → do_switch s cpu ≡ (s, cpu)
unfolding do_switch
do_switch_in_kernel s cpu e = ground arith

do_switch_user :
    (s : Sched) (cpu : Cpu) (c : ℕ)
    → s.cur_task ≡ some c
    → FromUser cpu
    → do_switch s cpu ≡ switch_from c s cpu
unfolding do_switch
do_switch_user s cpu c e user = ground arith

-- The task that runs next, as it is when its turn comes, and the context that it goes on with.
abbrev pub after_save : ℕ → Sched → Cpu → ℕ → Task
after_save c s cpu =
    update s.pool c (record (s.pool c) { regs = copy_regs cpu.ctx (s.pool c).regs; cr3 = cpu.cr3 })

abbrev pub resumed : Task → Cpu → Cpu
resumed next cpu = record cpu {
  ctx = copy_regs next.regs cpu.ctx;
  cr3 = next.cr3;
  esp0 = next.kstack_top;
}

-- What a switch from the task `c` to the task `n` leaves, `next` being `n` as its turn comes.
pub record Switched (s : Sched) (cpu : Cpu) (c n : ℕ) (s' : Sched) (cpu' : Cpu) : Type 0 where
  pub current : s'.cur_task ≡ some n
  pub links : s'.links ≡ s.links
  pub ntasks : s'.ntasks ≡ s.ntasks
  pub saved : (i : ℕ) → i < 13 → (s'.pool c).regs i ≡ cpu.ctx i
  pub saved_cr3 : (s'.pool c).cr3 ≡ cpu.cr3
  pub others : (i : ℕ) → i ≢ c → (s'.pool i).regs ≡ (s.pool i).regs
  pub others_cr3 : (i : ℕ) → i ≢ c → (s'.pool i).cr3 ≡ (s.pool i).cr3
  pub untouched : (i : ℕ) → i ≢ c → i ≢ n → s'.pool i ≡ s.pool i
  pub cr3 : cpu'.cr3 ≡ (if n == c then cpu.cr3 else (s.pool n).cr3)
  pub esp0 : cpu'.esp0 ≡ (s.pool n).kstack_top
  pub signal :
      (Quiet (after_save c s cpu n)
        × ((i : ℕ) → i < 13 → cpu'.ctx i ≡ (if n == c then cpu.ctx i else (s.pool n).regs i)))
      ⊎ ((sig : ℕ) × Delivered
            (after_save c s cpu n)
            (resumed (after_save c s cpu n) cpu)
            sig
            (s'.pool n)
            cpu')

switch_from_lem :
    (s : Sched) (cpu : Cpu) (c : ℕ)
    → Switched s cpu c (next_task c s.links) (switch_from c s cpu).0 (switch_from c s cpu).1
unfolding switch_from
switch_from_lem s cpu c =
    let n = next_task c s.links in
    let next = after_save c s cpu n in
    let k = deliver_keeps next (resumed next cpu) in
    record {
      current = refl;
      links = refl;
      ntasks = refl;
      saved = λ i h. ground (arith, k, copy_regs_lem cpu.ctx (s.pool c).regs i);
      saved_cr3 = ground (arith, k);
      others = λ i ne. ground (arith, k);
      others_cr3 = λ i ne. ground (arith, k);
      untouched = λ i a b. ground arith;
      cr3 = ground (arith, k);
      esp0 = ground (arith, k);
      signal = elim (deliver_lem next (resumed next cpu)) [
        | inl (quiet, e) ↦ inl (
          quiet,
          λ i h.
              ap (λ (r : Task × Cpu). r.1.ctx i) e
              ∙ copy_regs_lem next.regs cpu.ctx i
              ∙ ground (arith, copy_regs_lem cpu.ctx (s.pool c).regs i),
        )
        | inr (sig, d) ↦ inr (
          sig,
          subst (λ t. Delivered next (resumed next cpu) sig t (deliver next (resumed next cpu)).1)
              (sym (update_self (after_save c s cpu) n (deliver next (resumed next cpu)).0)) d,
        )
      ];
    }

pub do_switch_lem :
    (s : Sched) (cpu : Cpu) (c : ℕ)
    → IsValid s
    → s.cur_task ≡ some c
    → c < s.ntasks
    → FromUser cpu
    → Switched s cpu c
        (if suc c == s.ntasks then 0 else suc c)
        (do_switch s cpu).0
        (do_switch s cpu).1
do_switch_lem s cpu c v e lt user =
    subst (λ n. Switched s cpu c n (do_switch s cpu).0 (do_switch s cpu).1)
      (next_task_lem s.links s.ntasks c v.ring lt)
      (subst (λ (r : Sched × Cpu). Switched s cpu c (next_task c s.links) r.0 r.1)
        (sym (do_switch_user s cpu c e user)) (switch_from_lem s cpu c))
