-- ===== src/Process/Sched.antt =====
-- process/scheduler.c, with `do_switch` as the interrupt stub of arch/idt_asm.asm calls it.
-- A task is its index in `task_pool`. Its embedded `list_head` has the address index + 1, and the
-- sentinel `task_list` has the address 0, so `list_entry` takes one off an address, and the
-- sentinel's goes round to 2^32 - 1.
pub mod Ring
pub mod Switch
pub mod Pick
pub mod Deliver
pub mod Round
pub mod Raise
mod Tests
use pepin_os.Base.{
  ℕ, zero, suc, ◌+◌, ◌-◌, Bool, ltb, ◌==◌, if◌then◌else◌, ◌&&◌, ◌||◌, not, update, for_range,
  bit_and, bit_or, shl32, sub32, Option, none, some, List, [], ◌∷◌,
}
use pepin_os.Base.Bits.{not32}
use pepin_os.Base.Int.{ℤ, pos, ltb_ℤ, pos_part}
use pepin_os.Klib.List.{Links, list_init, list_add_tail}
use pepin_os.Process.Task.{Task, Fd, copy_regs, closed, max_fd, nsig}

pub record Sched : Type 0 where
  pub links : Links
  pub pool : ℕ → Task
  pub ntasks : ℕ
  pub cur_task : Option ℕ

abbrev pub task_list : ℕ
task_list = 0

abbrev pub node_of : ℕ → ℕ
node_of i = suc i

abbrev pub list_entry : ℕ → ℕ
list_entry p = if p == 0 then 0xFFFF_FFFF else p - 1

-- The static state before any task: `LIST_HEAD(task_list)` and zeros.
unfoldable pub empty : Links → (ℕ → Task) → Sched
empty l pool = record { links = list_init task_list l; pool = pool; ntasks = 0; cur_task = none }

unfoldable pub set_task : ℕ → Task → Sched → Sched
set_task i t s = record s { pool = update s.pool i t }

-- The numbers at which `sched_signal`, `SYS_KILL` and `SYS_SIGACTION` do nothing.
pub bad_signal : ℤ → Bool
bad_signal sig = not (ltb_ℤ (pos 0) sig) || not (ltb_ℤ sig (pos nsig))

-- `t->sig_pending |= (1u << sig)`
pub raise : ℕ → Task → Task
raise sig t = record t { sig_pending = bit_or t.sig_pending (shl32 1 sig) }

pub sched_signal : ℤ → Sched → Sched
sched_signal sig s = elim s.cur_task [
  | none ↦ s
  | some c ↦ if bad_signal sig then s else set_task c (raise (pos_part sig) (s.pool c)) s
]

abbrev pub sched_current_task : Sched → Option ℕ
sched_current_task s = s.cur_task

-- The task that `sched_add_task` fills in, over the old contents of its slot.
pub new_task : (eip cs eflags user_esp ss cr3 kstack_top : ℕ) → Task → Task
new_task eip cs eflags user_esp ss cr3 kstack_top t =
    let cleared = for_range 13 0 (λ i r. update r i 0) t.regs in
    record {
      regs =
          update (update (update (update (update cleared 8 eip) 9 cs) 10 eflags) 11 user_esp) 12 ss;
      cr3 = cr3;
      kstack_top = kstack_top;
      active = 1;
      files = for_range max_fd 0 (λ i f. update f i closed) t.files;
      sig_pending = 0;
      sig_handlers = for_range nsig 0 (λ i h. update h i 0) t.sig_handlers;
      sig_saved_regs = for_range 13 0 (λ i r. update r i 0) t.sig_saved_regs;
      sig_in_handler = 0;
    }

pub sched_add_task : (eip cs eflags user_esp ss cr3 kstack_top : ℕ) → Sched → Sched
sched_add_task eip cs eflags user_esp ss cr3 kstack_top s =
    let i = s.ntasks in
    record {
      links = list_add_tail task_list (node_of i) s.links;
      pool = update s.pool i (new_task eip cs eflags user_esp ss cr3 kstack_top (s.pool i));
      ntasks = suc i;
      cur_task = if i == 0 then some i else s.cur_task;
    }

-- What `do_switch` works on beside the tasks: the 13 words of `ctx` on the kernel stack, CR3,
-- `ktss.esp0`, and the words that it stores through user addresses, the last one first, each with
-- the page directory that translates its address.
pub record Cpu : Type 0 where
  pub ctx : ℕ → ℕ
  pub cr3 : ℕ
  pub esp0 : ℕ
  pub stores : List (ℕ × ℕ × ℕ)

-- `for (sig = ...; sig < NSIG; sig++) if (pending & (1u << sig)) break;` with the rounds left.
unfoldable pub find_signal : ℕ → ℕ → ℕ → ℕ
find_signal zero sig pending = sig
find_signal (suc n) sig pending =
    let rest = find_signal n (suc sig) pending in
    if bit_and pending (shl32 1 sig) == 0 then rest else sig

-- The call of the handler of `sig` that is put on the user stack.
pub inject : ℕ → Task → Cpu → Task × Cpu
inject sig t cpu =
    let esp = sub32 (cpu.ctx 11) 4 in
    let esp' = sub32 esp 4 in
    (
      record t {
        sig_saved_regs = copy_regs cpu.ctx t.sig_saved_regs;
        sig_in_handler = 1;
        sig_pending = bit_and t.sig_pending (not32 (shl32 1 sig));
      },
      record cpu {
        ctx = update (update cpu.ctx 11 esp') 8 (t.sig_handlers sig);
        stores = (cpu.cr3, esp', 0) ∷ (cpu.cr3, esp, sig) ∷ cpu.stores;
      },
    )

-- The last part of `do_switch`: the delivery of a pending signal.
pub deliver : Task → Cpu → Task × Cpu
deliver t cpu =
    if not (t.sig_pending == 0) && (t.sig_in_handler == 0)
    then (let sig = find_signal 31 1 t.sig_pending in
        if ltb sig nsig && not (t.sig_handlers sig == 0) then inject sig t cpu else (t, cpu))
    else (t, cpu)

-- The node behind the current task's, and behind the sentinel if it is that.
pub next_task : ℕ → Links → ℕ
next_task c l =
    let node = l.next (node_of c) in list_entry (if node == task_list then l.next node else node)

-- The switch from the task `c`.
pub switch_from : ℕ → Sched → Cpu → Sched × Cpu
switch_from c s cpu =
    let t = s.pool c in
    let saved = record t { regs = copy_regs cpu.ctx t.regs; cr3 = cpu.cr3 } in
    let pool = update s.pool c saved in
    let n = next_task c s.links in
    let next = pool n in
    let cpu' = record cpu {
      ctx = copy_regs next.regs cpu.ctx;
      cr3 = next.cr3;
      esp0 = next.kstack_top;
    } in
    let (next', cpu'') = deliver next cpu' in
    (record s { pool = update pool n next'; cur_task = some n }, cpu'')

pub do_switch : Sched → Cpu → Sched × Cpu
do_switch s cpu = elim s.cur_task [
  | none ↦ (s, cpu)
  | some c ↦ if bit_and (cpu.ctx 9) 3 == 0 then (s, cpu) else switch_from c s cpu
]
