-- ===== src/Boot/Tasks/Tests.antt =====
-- The first tasks over the tables of `init_paging`, with their code at 0x12000 and 0x13000.
use pepin_os.Base.{◌%◌, ◌≡◌, refl}
use pepin_os.Base.Int.{pos}
use pepin_os.Base.Memory.{write32}
use pepin_os.Mm.Paging.{init_paging}
use pepin_os.Process.Task.{Task, closed}
use pepin_os.Process.Sched.{empty}
use pepin_os.Boot.Tasks.{Tasks, init_tss}

abbrev blank : Task
blank = record {
  regs = λ _. 0;
  cr3 = 0;
  kstack_top = 0;
  active = 0;
  files = λ _. closed;
  sig_pending = 0;
  sig_handlers = λ _. 0;
  sig_saved_regs = λ _. 0;
  sig_in_handler = 0;
}

abbrev started : Tasks
started = record {
  mem = (init_paging (λ a. a % 256)).1;
  sched = empty (record { next = λ i. i; prev = λ i. i }) (λ _. blank);
  screen = record { video = λ _. 0; kx = pos 0; ky = pos 0; kattr = 7; cursor = 0 };
  ktss = λ _. 0xFF;
}

-- ss0, and the lower bytes of esp0.
tss_bytes :
    (init_tss 0x32_1000 (λ _. 0xFF) 8 ≡ 0x18)
    × (init_tss 0x32_1000 (λ _. 0xFF) 5 ≡ 0x10)
    × (init_tss 0x32_1000 (λ _. 0xFF) 6 ≡ 0x32)
unfolding init_tss write32
tss_bytes = (refl, refl, refl)
