-- ===== src/Process/Sched/Round.antt =====
-- Sequences of timer interrupts: every task gets its turn and finds its context again.
use pepin_os.Base.{
  ℕ, suc, ◌+◌, ◌<◌, ◌≡◌, sym, ap, ◌∙◌, ◌≢◌, ◌⊎◌, inl, inr, arith, ◌==◌, ltb, bit_and, none, some,
  List, [], ◌∷◌, if◌then◌else◌, length, Bool-cases, Option-cases,
}
use mathlib.Core.Path.{subst}
use pepin_os.Process.Task.{copy_regs_lem}
use pepin_os.Process.Sched.{Sched, Cpu, do_switch}
use pepin_os.Process.Sched.Ring.{IsValid}
use pepin_os.Process.Sched.Switch.{
  FromUser, Switched, do_switch_lem, do_switch_in_kernel, after_save,
}

do_switch_idle : (s : Sched) (cpu : Cpu) → s.cur_task ≡ none → do_switch s cpu ≡ (s, cpu)
unfolding do_switch
do_switch_idle s cpu e = ground arith

abbrev after : ℕ → ℕ → ℕ
after c n = if suc c == n then 0 else suc c

Switched-IsValid :
    (s s' : Sched) (cpu cpu' : Cpu) (c : ℕ)
    → IsValid s
    → c < s.ntasks
    → Switched s cpu c (after c s.ntasks) s' cpu'
    → IsValid s'
Switched-IsValid s s' cpu cpu' c v lt w = record {
  ring = rw (w.links, w.ntasks) v.ring;
  small = omega (arith, w.ntasks, v.small);
  running = λ _. (after c s.ntasks, w.current, ground (arith, w.ntasks));
  idle = λ e. absurd (omega (arith, w.ntasks));
}

running_task : (s : Sched) (c : ℕ) → IsValid s → s.cur_task ≡ some c → c < s.ntasks
running_task s c v e = elim (Bool-cases (ltb 0 s.ntasks)) [
  | inl some_task ↦ let (d, e', lt) = v.running (ground arith) in ground arith
  | inr no_task ↦ ground (arith, v.idle)
]

-- `do_switch` keeps the list of tasks and its current task in order, whatever it interrupts.
pub do_switch-IsValid : (s : Sched) (cpu : Cpu) → IsValid s → IsValid (do_switch s cpu).0
do_switch-IsValid s cpu v = elim (Option-cases s.cur_task) [
  | inl off ↦ subst (λ (r : Sched × Cpu). IsValid r.0) (sym (do_switch_idle s cpu off)) v
  | inr (c, e) ↦ elim (Bool-cases (bit_and (cpu.ctx 9) 3 == 0)) [
    | inl kernel ↦
        subst (λ (r : Sched × Cpu). IsValid r.0) (sym (do_switch_in_kernel s cpu (ground arith))) v
    | inr user ↦
        let lt = running_task s c v e in
        Switched-IsValid s (do_switch s cpu).0 cpu (do_switch s cpu).1 c v lt
          (do_switch_lem s cpu c v e lt (ground arith))
  ]
]

-- A tick for each of the contexts, the first in the state `s`. Between two ticks the task that was
-- chosen runs, and leaves the next context of the list; it makes no call that changes the scheduler.
pub ticks : Sched → Cpu → List Cpu → Sched × Cpu
ticks s cpu [] = do_switch s cpu
ticks s cpu (cpu' ∷ cs) = ticks (do_switch s cpu).0 cpu' cs

abbrev pub AllFromUser : List Cpu → Type 0
AllFromUser [] = Unit
AllFromUser (cpu ∷ cs) = FromUser cpu × AllFromUser cs

-- The task `c` goes on with the registers `regs`, or it runs a handler and has them saved.
pub record GoesOn (c : ℕ) (regs : ℕ → ℕ) (cr3 : ℕ) (s' : Sched) (cpu' : Cpu) : Type 0 where
  pub current : s'.cur_task ≡ some c
  pub space : cpu'.cr3 ≡ cr3
  pub context :
      ((i : ℕ) → i < 13 → cpu'.ctx i ≡ regs i)
      ⊎ ((i : ℕ) → i < 13 → (s'.pool c).sig_saved_regs i ≡ regs i)

Switched-GoesOn :
    (s s' : Sched) (cpu cpu' : Cpu) (d c : ℕ)
    → c ≢ d
    → Switched s cpu d c s' cpu'
    → GoesOn c (s.pool c).regs (s.pool c).cr3 s' cpu'
Switched-GoesOn s s' cpu cpu' d c ne w = record {
  current = w.current;
  space = ground (arith, w.cr3);
  context = elim w.signal [
    | inl (quiet, same) ↦ inl (λ i h. ground (arith, same i h))
    | inr (sig, del) ↦
        inr (λ i h.
          del.saved i h ∙ copy_regs_lem (after_save d s cpu c).regs cpu.ctx i ∙ ground arith)
  ];
}

GoesOn-congr :
    (c : ℕ) (f g : ℕ → ℕ) (p q : ℕ) (s' : Sched) (cpu' : Cpu)
    → ((i : ℕ) → i < 13 → f i ≡ g i)
    → p ≡ q
    → GoesOn c f p s' cpu'
    → GoesOn c g q s' cpu'
GoesOn-congr c f g p q s' cpu' same e h = record {
  current = h.current;
  space = h.space ∙ e;
  context = elim h.context [
    | inl on ↦ inl (λ i lt. on i lt ∙ same i lt)
    | inr kept ↦ inr (λ i lt. kept i lt ∙ same i lt)
  ];
}

-- The task `d` runs, and `c` waits `k` places behind it in the ring of `n`.
abbrev Behind : ℕ → ℕ → ℕ → ℕ → Type 0
Behind n d c k = (d + k ≡ c) ⊎ (d + k ≡ c + n)

Behind-after :
    (n d c k : ℕ) → d < n → c < n → Behind n d c (suc (suc k)) → Behind n (after d n) c (suc k)
Behind-after n d c k hd hc b = ground arith

turn_comes :
    (cs : List Cpu) (s : Sched) (cpu : Cpu) (d c : ℕ)
    → IsValid s
    → s.cur_task ≡ some d
    → d < s.ntasks
    → c < s.ntasks
    → c ≢ d
    → suc (length cs) < s.ntasks
    → Behind s.ntasks d c (suc (length cs))
    → FromUser cpu
    → AllFromUser cs
    → GoesOn c (s.pool c).regs (s.pool c).cr3 (ticks s cpu cs).0 (ticks s cpu cs).1
unfolding ticks
turn_comes [] s cpu d c v e hd hc ne short b user all =
    let here : after d s.ntasks ≡ c = ground arith in
    Switched-GoesOn s (do_switch s cpu).0 cpu (do_switch s cpu).1 d c ne (
      subst (λ n. Switched s cpu d n (do_switch s cpu).0 (do_switch s cpu).1) here
        (do_switch_lem s cpu d v e hd user))
turn_comes (cpu' ∷ cs) s cpu d c v e hd hc ne short b user all =
    let w = do_switch_lem s cpu d v e hd user in
    let s' = (do_switch s cpu).0 in
    let same : s'.ntasks ≡ s.ntasks = w.ntasks in
    GoesOn-congr c (s'.pool c).regs (s.pool c).regs (s'.pool c).cr3 (s.pool c).cr3
      (ticks s' cpu' cs).0 (ticks s' cpu' cs).1 (λ i h. ap (λ (f : ℕ → ℕ). f i) (w.others c ne))
      (w.others_cr3 c ne)
      (turn_comes cs s' cpu' (after d s.ntasks) c (do_switch-IsValid s cpu v) w.current
        (ground arith) (omega arith) (ground arith) (omega arith)
        (rw same (Behind-after s.ntasks d c (length cs) hd hc b)) all.0 all.1)

-- If the scheduler is in order with at least two tasks, each of as many ticks as there are tasks
-- interrupts user code, and between these ticks no task changes what the scheduler holds, by a signal
-- that is sent or any other system call that writes to it, then the task that the first tick interrupts
-- has its turn again after the last one, with the page directory and all the registers that it was
-- interrupted with, or with those registers saved for the return from the handler of a signal that is
-- delivered to it.
pub ticks-GoesOn :
    (s : Sched) (cpu cpu' : Cpu) (cs : List Cpu) (c : ℕ)
    → IsValid s
    → s.cur_task ≡ some c
    → c < s.ntasks
    → length cs + 2 ≡ s.ntasks
    → FromUser cpu
    → AllFromUser (cpu' ∷ cs)
    → GoesOn c cpu.ctx cpu.cr3 (ticks s cpu (cpu' ∷ cs)).0 (ticks s cpu (cpu' ∷ cs)).1
unfolding ticks
ticks-GoesOn s cpu cpu' cs c v e lt count user all =
    let w = do_switch_lem s cpu c v e lt user in
    let s' = (do_switch s cpu).0 in
    let same : s'.ntasks ≡ s.ntasks = w.ntasks in
    GoesOn-congr c (s'.pool c).regs cpu.ctx (s'.pool c).cr3 cpu.cr3 (ticks s' cpu' cs).0
      (ticks s' cpu' cs).1 w.saved w.saved_cr3
      (turn_comes cs s' cpu' (after c s.ntasks) c (do_switch-IsValid s cpu v) w.current
        (ground arith) (omega arith) (ground arith) (omega arith) (rw same (ground arith)) all.0
        all.1)
