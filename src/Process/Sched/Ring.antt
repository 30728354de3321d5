-- ===== src/Process/Sched/Ring.antt =====
-- The list of tasks: the tasks in the order of their registration, and who comes next.
use pepin_os.Base.{
  ℕ, zero, suc, ◌+◌, ◌≤◌, ◌<◌, ◌≡◌, refl, sym, ap, ◌∙◌, ◌≢◌, arith, ◌==◌, ltb, leb, true, ◌&&◌,
  Option, none, some, List, [], ◌∷◌, ◌++◌, if◌then◌else◌, for_range-update, update_self,
}
use mathlib.Core.Path.{subst}
use pepin_os.Process.Task.{max_fd, nsig, closed}
use pepin_os.Klib.List.{Links}
use pepin_os.Klib.List.Chain.{has, has-append, Chain, IsRing}
use pepin_os.Klib.List.Insert.{list_init-IsRing, list_add_tail-IsRing}
use pepin_os.Process.Task.{Task}
use pepin_os.Process.Sched.{new_task, Sched, empty, sched_add_task, next_task, node_of, task_list}

-- The nodes of the first `n` tasks.
abbrev pub nodes : ℕ → List ℕ
nodes zero = []
nodes (suc n) = nodes n ++ (node_of n ∷ [])

pub record IsValid (s : Sched) : Type 0 where
  pub ring : IsRing s.links task_list (nodes s.ntasks)
  pub small : s.ntasks ≤ 8
  pub running : 0 < s.ntasks → (c : ℕ) × (s.cur_task ≡ some c) × (c < s.ntasks)
  pub idle : s.ntasks ≡ 0 → s.cur_task ≡ none

has-nodes : (p n : ℕ) → has p (nodes n) ≡ (ltb 0 p && leb p n)
has-nodes p zero = ground arith
has-nodes p (suc n) = ground (arith, has-append p (nodes n) (node_of n ∷ []), has-nodes p n)

Chain-snoc :
    (l : Links) (a y b : ℕ) (xs : List ℕ)
    → Chain l a (xs ++ (y ∷ [])) b
    → Chain l a xs y × (l.next y ≡ b)
Chain-snoc l a y b [] c = ((c.0, c.1), c.2.0)
Chain-snoc l a y b (x ∷ xs) c = let rest = Chain-snoc l x y b xs c.2 in ((c.0, c.1, rest.0), rest.1)

next-node :
    (l : Links) (n b c : ℕ)
    → Chain l task_list (nodes n) b
    → c < n
    → l.next (node_of c) ≡ (if suc c == n then b else node_of (suc c))
next-node l zero b c ch lt = absurd (omega arith)
next-node l (suc n) b c ch lt =
    let parts = Chain-snoc l task_list (node_of n) b (nodes n) ch in
    ground (arith, next-node l n (node_of n) c parts.0, parts.1)

next-sentinel :
    (l : Links) (n b : ℕ) → Chain l task_list (nodes n) b → 0 < n → l.next task_list ≡ node_of 0
next-sentinel l zero b ch lt = absurd (omega arith)
next-sentinel l (suc zero) b ch lt = ch.0
next-sentinel l (suc (suc n)) b ch lt =
    next-sentinel l (suc n) (node_of (suc n))
      (Chain-snoc l task_list (node_of (suc n)) b (nodes (suc n)) ch).0 (omega arith)

-- The task behind `c` in the ring of `n` tasks.
pub next_task_lem :
    (l : Links) (n c : ℕ)
    → IsRing l task_list (nodes n)
    → c < n
    → next_task c l ≡ (if suc c == n then 0 else suc c)
unfolding next_task
next_task_lem l n c r lt = ground (arith, next-node l n 0 c r.chain lt, next-sentinel l n 0 r.chain)

-- The scheduler starts valid and without a current task.
pub empty-IsValid : (l : Links) (pool : ℕ → Task) → IsValid (empty l pool)
unfolding empty
empty-IsValid l pool = record {
  ring = list_init-IsRing l task_list;
  small = omega arith;
  running = λ h. absurd (omega arith);
  idle = λ _. refl;
}

added-running :
    (n : ℕ) (cur : Option ℕ)
    → (0 < n → (c : ℕ) × (cur ≡ some c) × (c < n))
    → (c : ℕ) × ((if n == 0 then some n else cur) ≡ some c) × (c < suc n)
added-running zero cur h = (0, refl, omega arith)
added-running (suc n) cur h = let (c, e, lt) = h (omega arith) in (c, ground arith, omega arith)

-- A task that has not run: it starts at `eip` with all general registers 0, no open file and no signal.
pub record IsNew (eip cs eflags user_esp ss cr3 kstack_top : ℕ) (t : Task) : Type 0 where
  pub general : (i : ℕ) → i < 8 → t.regs i ≡ 0
  pub context :
      (t.regs 8 ≡ eip)
      × (t.regs 9 ≡ cs)
      × (t.regs 10 ≡ eflags)
      × (t.regs 11 ≡ user_esp)
      × (t.regs 12 ≡ ss)
  pub space : (t.cr3 ≡ cr3) × (t.kstack_top ≡ kstack_top)
  pub active : t.active ≡ 1
  pub files : (i : ℕ) → i < 8 → t.files i ≡ closed
  pub pending : t.sig_pending ≡ 0
  pub handlers : (i : ℕ) → i < 32 → t.sig_handlers i ≡ 0
  pub in_handler : t.sig_in_handler ≡ 0

new_task_lem :
    (eip cs eflags user_esp ss cr3 kstack_top : ℕ) (t : Task)
    → IsNew eip cs eflags user_esp ss cr3 kstack_top
        (new_task eip cs eflags user_esp ss cr3 kstack_top t)
unfolding new_task
new_task_lem eip cs eflags user_esp ss cr3 kstack_top t = record {
  general = λ i h. ground (arith, h, for_range-update 13 0 (λ _. 0) t.regs i);
  context = (ground arith, ground arith, ground arith, ground arith, ground arith);
  space = (refl, refl);
  active = refl;
  files = λ i h.
      for_range-update max_fd 0 (λ _. closed) t.files i
      ∙ (let inside : leb 0 i && ltb i (0 + max_fd) ≡ true = ground (arith, h) in rw inside refl);
  pending = refl;
  handlers = λ i h.
      for_range-update nsig 0 (λ _. 0) t.sig_handlers i
      ∙ (let inside : leb 0 i && ltb i (0 + nsig) ≡ true = ground (arith, h) in rw inside refl);
  in_handler = refl;
}

-- Registering a task in a scheduler in order while fewer than 8 are registered puts it behind the
-- others, in the next slot of the pool, with its entry point, segments, stacks and directory, all
-- general registers 0, no open file and no signal, keeps the other slots, and makes the first task
-- the current one.
pub sched_add_task-IsValid :
    (eip cs eflags user_esp ss cr3 kstack_top : ℕ) (s : Sched)
    → IsValid s
    → s.ntasks < 8
    → let t = sched_add_task eip cs eflags user_esp ss cr3 kstack_top s in
      IsValid t
      × (t.ntasks ≡ suc s.ntasks)
      × ((i : ℕ) → i ≢ s.ntasks → t.pool i ≡ s.pool i)
      × (t.cur_task ≡ (if s.ntasks == 0 then some 0 else s.cur_task))
      × IsNew eip cs eflags user_esp ss cr3 kstack_top (t.pool s.ntasks)
unfolding sched_add_task
sched_add_task-IsValid eip cs eflags user_esp ss cr3 kstack_top s v room = (
  record {
    ring =
        list_add_tail-IsRing (node_of s.ntasks) v.ring
          (ground (arith, has-nodes (node_of s.ntasks) s.ntasks));
    small = omega arith;
    running = λ _. added-running s.ntasks s.cur_task v.running;
    idle = λ e. absurd (omega arith);
  },
  refl,
  λ i ne. ground arith,
  ground arith,
  subst (IsNew eip cs eflags user_esp ss cr3 kstack_top)
      (sym (
        update_self s.pool s.ntasks
          (new_task eip cs eflags user_esp ss cr3 kstack_top (s.pool s.ntasks))))
      (new_task_lem eip cs eflags user_esp ss cr3 kstack_top (s.pool s.ntasks)),
)

pub sched_add_task_pool :
    (eip cs eflags user_esp ss cr3 kstack_top : ℕ) (s : Sched) (i : ℕ)
    → s.ntasks ≡ i
    → (sched_add_task eip cs eflags user_esp ss cr3 kstack_top s).pool i
      ≡ new_task eip cs eflags user_esp ss cr3 kstack_top (s.pool i)
unfolding sched_add_task
sched_add_task_pool eip cs eflags user_esp ss cr3 kstack_top s i e =
    ap (λ (j : ℕ). (sched_add_task eip cs eflags user_esp ss cr3 kstack_top s).pool j) (sym e)
    ∙ update_self s.pool s.ntasks
        (new_task eip cs eflags user_esp ss cr3 kstack_top (s.pool s.ntasks))
    ∙ ap (λ (j : ℕ). new_task eip cs eflags user_esp ss cr3 kstack_top (s.pool j)) e
