-- ===== src/Boot/Tasks.antt =====
-- process/task.c, task.h and arch/tss.c: the first two tasks. The addresses of their code in the kernel are
-- parameters.
pub mod Prepare
pub mod Code
mod Tests
use pepin_os.Base.{
  ℕ, zero, suc, ◌+◌, ◌-◌, ◌*◌, ◌/◌, ◌%◌, ◌^◌, ◌≤◌, ◌<◌, ◌≡◌, refl, sym, ap, ◌∙◌, ◌≢◌, ◌⊎◌, inl, inr,
  arith, ◌==◌, ltb, leb, min, max, bit_and, bit_or, Bool, true, false, not, ◌&&◌, ◌||◌, Option,
  none, some, List, [], ◌∷◌, ◌++◌, map, if◌then◌else◌, for_range, update, for_range-update,
  update_self, length, get_elem?, length-append, Bool-cases, Option-cases, u32_mod, add32, sub32,
  mul32, shl32, shl32-one, pow-lt-u32, ltb→lt, lt→ltb, ltb→le, ==_iff,
}
use pepin_os.Base.Memory.{Memory, write32}
use pepin_os.Base.Text.{codes}
use pepin_os.Drivers.Screen.{Screen, print}
use pepin_os.Mm.Paging.{create_task_space}
use pepin_os.Process.Sched.{Sched, sched_add_task}

-- The size of `struct tss`.
abbrev pub tss_size : ℕ
tss_size = 104

-- The bytes of `ktss`: ss0 at 8, esp0 at 4, and iomap_base at 102.
pub init_tss : ℕ → (ℕ → ℕ) → ℕ → ℕ
init_tss kernel_stack ktss =
    let cleared = for_range tss_size 0 (λ i p. update p i 0) ktss in
    let ss = update (update cleared 8 0x18) 9 0 in
    update (update (write32 ss 4 kernel_stack) 102 tss_size) 103 0

pub record Tasks : Type 0 where
  pub mem : Memory
  pub sched : Sched
  pub screen : Screen
  pub ktss : ℕ → ℕ

-- `for (i = 0; i < 1024; i++) dst[i] = src[i];`
pub copy_code : (dst src : ℕ) → Memory → Memory
copy_code dst src mem = for_range 1024 0 (λ i m. update m (dst + i) (m (src + i))) mem

-- Copying the code of a task and making its space.
abbrev pub prepare : (src code_phys stack_phys pd pt : ℕ) → Memory → Memory
prepare src code_phys stack_phys pd pt mem =
    create_task_space code_phys stack_phys 0x4000_0000 0x4000_1000 pd pt
      (copy_code code_phys src mem)

-- `sched_add_task` of a task with its directory and the top of its kernel stack.
abbrev pub add_task : (pd kstack_top : ℕ) → Sched → Sched
add_task pd kstack_top s =
    sched_add_task 0x4000_0000 0x23 0x202 (0x4000_1000 + 0xFF0) 0x33 pd kstack_top s

abbrev print_texts : List (List ℕ) → Screen → Screen
print_texts [] s = s
print_texts (t ∷ ts) s = print_texts ts (print t s)

pub launch_tasks : (user_task user_task_b : ℕ) → Tasks → Tasks
launch_tasks user_task user_task_b t = record {
  mem =
      prepare user_task_b 0x30_1000 0x30_E000 0x20_7000 0x20_8000
        (prepare user_task 0x30_0000 0x30_F000 0x20_5000 0x20_6000 t.mem);
  sched = add_task 0x20_7000 0x32_3000 (add_task 0x20_5000 0x32_1000 t.sched);
  screen =
      print_texts
        (codes "  [OK] Tarea A copiada a 0x30000\n"
          ∷ codes "  [OK] Espacio de memoria A creado\n"
          ∷ codes "  [OK] Tarea B copiada a 0x31000\n"
          ∷ codes "  [OK] Espacio de memoria B creado\n"
          ∷ codes "  [OK] TSS listo (pilas kernel separadas)\n"
          ∷ codes "  [OK] Scheduler: 2 tareas registradas\n"
          ∷ codes "  [OK] Tareas A y B registradas. Llamar sched_enter() para iniciar.\n"
          ∷ [])
        (record (t.screen) { kattr = 0x07 });
  ktss = init_tss 0x32_1000 t.ktss;
}
