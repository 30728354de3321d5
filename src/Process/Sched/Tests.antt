-- ===== src/Process/Sched/Tests.antt =====
-- The scheduler with the two idle tasks and a third one.
use pepin_os.Base.{ℕ, ◌*◌, ◌≡◌, refl, ◌≢◌, arith, ◌==◌, bit_and, some, [], ◌∷◌, if◌then◌else◌}
use pepin_os.Base.Bits.{bit}
use pepin_os.Process.Task.{Task, closed}
use pepin_os.Process.Sched.{Sched, Cpu, empty, sched_add_task, do_switch, deliver, raise}
use pepin_os.Process.Sched.Ring.{IsValid, IsNew, empty-IsValid, sched_add_task-IsValid}
use pepin_os.Process.Sched.Round.{ticks, GoesOn, ticks-GoesOn, do_switch-IsValid}
use pepin_os.Process.Sched.Raise.{Blocked, deliver-Blocked}

abbrev blank : Task
blank = record {
  regs = λ _. 0;
  cr3 = 0;
  kstack_top = 0;
  active = 0;
  files = λ _. closed;
  sig_pending = 0;
  sig_handlers = λ _. 0;
  sig_saved_regs = λ _. 0;
  sig_in_handler = 0;
}

abbrev none_yet : Sched
none_yet = empty (record { next = λ _. 0; prev = λ _. 0 }) (λ _. blank)

abbrev add : ℕ → Sched → Sched
add cr3 s = sched_add_task 0x4000_0000 0x23 0x202 0x4000_1FF0 0x33 cr3 0x32_1000 s

abbrev none_yet-IsValid : IsValid none_yet
none_yet-IsValid = empty-IsValid (record { next = λ _. 0; prev = λ _. 0 }) (λ _. blank)

abbrev user : Cpu
user = record { ctx = λ i. if i == 9 then 0x23 else 7 * i; cr3 = 0x20_5000; esp0 = 0; stores = [] }

sched_add_task-IsValid_example :
    IsValid (add 0x20_5000 none_yet)
    × ((add 0x20_5000 none_yet).ntasks ≡ 1)
    × ((i : ℕ) → i ≢ 0 → (add 0x20_5000 none_yet).pool i ≡ blank)
    × ((add 0x20_5000 none_yet).cur_task ≡ some 0)
    × IsNew 0x4000_0000 0x23 0x202 0x4000_1FF0 0x33 0x20_5000 0x32_1000
        ((add 0x20_5000 none_yet).pool 0)
unfolding empty
sched_add_task-IsValid_example =
    sched_add_task-IsValid 0x4000_0000 0x23 0x202 0x4000_1FF0 0x33 0x20_5000 0x32_1000 none_yet
      none_yet-IsValid (omega arith)

abbrev one : Sched
one = add 0x20_5000 none_yet

abbrev two : Sched
two = add 0x20_7000 one

one-IsValid : IsValid one
unfolding empty
one-IsValid =
    (sched_add_task-IsValid 0x4000_0000 0x23 0x202 0x4000_1FF0 0x33 0x20_5000 0x32_1000 none_yet
      none_yet-IsValid (omega arith)).0

two_tasks : IsValid two × (two.ntasks ≡ 2) × (two.cur_task ≡ some 0)
unfolding sched_add_task empty
two_tasks = (
  (sched_add_task-IsValid 0x4000_0000 0x23 0x202 0x4000_1FF0 0x33 0x20_7000 0x32_1000 one
      one-IsValid (omega arith)).0,
  refl,
  refl,
)

user-FromUser : bit_and (user.ctx 9) 3 ≢ 0
user-FromUser = omega arith

do_switch-IsValid_example : IsValid (do_switch two user).0
do_switch-IsValid_example = do_switch-IsValid two user two_tasks.0

ticks-GoesOn_example :
    GoesOn 0 user.ctx 0x20_5000 (ticks two user (user ∷ [])).0 (ticks two user (user ∷ [])).1
unfolding sched_add_task empty
ticks-GoesOn_example =
    ticks-GoesOn two user user [] 0 two_tasks.0 refl (omega arith) refl user-FromUser
      (user-FromUser, tt)

-- Signals 2 and 10 are pending, and only 10 has a handler.
abbrev interrupted : Task
interrupted = record blank {
  sig_pending = 0x404;
  sig_handlers = λ i. if i == 10 then 0x4000_0800 else 0;
}

interrupted-Blocked : Blocked interrupted 2
unfolding bit
interrupted-Blocked = record {
  number = omega arith;
  pending = refl;
  lowest = λ j lo hi. let e : j ≡ 1 = omega arith in rw e refl;
  no_handler = refl;
}

deliver-Blocked_example :
    (deliver interrupted user ≡ (interrupted, user)) × Blocked (raise 10 interrupted) 2
deliver-Blocked_example =
    deliver-Blocked interrupted user 2 10 interrupted-Blocked (omega arith) (omega arith)
