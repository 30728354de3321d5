-- ===== src/Mm/Paging/Tests.antt =====
-- Paging at concrete inputs: memory that is all zero, and the first task of process/task.c.
use pepin_os.Base.{◌≡◌, refl, arith, some}
use pepin_os.Base.Memory.{Memory}
use pepin_os.Mm.Paging.{init_paging, create_task_space}
use pepin_os.Mm.Paging.Translate.{translate}
use pepin_os.Mm.Paging.Kernel.{init_paging-KernelTables}
use pepin_os.Mm.Paging.Space.{Layout}
use pepin_os.Mm.Paging.Task.{create_task_space_lem}

abbrev paged : Memory
paged = (init_paging (λ _. 0)).1

task_a : Layout 0x30_0000 0x30_F000 0x4000_0000 0x4000_1000 0x20_5000 0x20_6000
task_a = record {
  pd_page = (refl, omega arith, omega arith);
  pt_page = (refl, omega arith, omega arith);
  apart = λ e. omega (arith, e);
  code_page = (refl, omega arith);
  stack_page = (refl, omega arith);
  directory = (omega arith, omega arith);
  one_table = refl;
  two_pages = λ e. omega (arith, e);
}

create_task_space_lem_example :
    translate
      (create_task_space 0x30_0000 0x30_F000 0x4000_0000 0x4000_1000 0x20_5000 0x20_6000 paged)
      0x20_5000
      0x4000_1FF0
    ≡ some (record { address = 0x30_FFF0; writable = 1; user = 1 })
create_task_space_lem_example =
    create_task_space_lem 0x30_0000 0x30_F000 0x4000_0000 0x4000_1000 0x20_5000 0x20_6000 task_a
      paged 0x4000_1FF0 (init_paging-KernelTables (λ _. 0)) (omega arith)
