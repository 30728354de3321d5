-- ===== src/Boot/Tasks/Code.antt =====
-- What the first tasks find in their address spaces.
use pepin_os.Base.{ℕ, ◌+◌, ◌/◌, ◌%◌, ◌^◌, ◌≤◌, ◌<◌, ◌≡◌, ap, ◌∙◌, arith, some}
use pepin_os.Base.Memory.{Memory, read32, read32_same}
use pepin_os.Mm.Paging.Translate.{translate}
use pepin_os.Mm.Paging.Kernel.{KernelTables}
use pepin_os.Process.Sched.{Sched, new_task, sched_add_task}
use pepin_os.Process.Sched.Ring.{IsValid as InOrder, sched_add_task-IsValid, sched_add_task_pool}
use pepin_os.Process.Task.{Task}
use pepin_os.Boot.Tasks.{Tasks, prepare, launch_tasks}
use pepin_os.Boot.Tasks.Prepare.{
  Runs, later_translation, made-byte, built, made-word, copied_tables, made_tables, made-Runs,
  first_pages, second_pages,
}

-- The words below the directory of the first task.
pub launch_tasks-word :
    (user_task user_task_b : ℕ) (t : Tasks) (b : ℕ)
    → user_task + 1024 ≤ 0x20_0000
    → user_task_b + 1024 ≤ 0x20_0000
    → b % 4 ≡ 0
    → b < 0x20_5000
    → read32 (launch_tasks user_task user_task_b t).mem b ≡ read32 t.mem b
unfolding launch_tasks
launch_tasks-word user_task user_task_b t b ha hb h lo =
    let m2 = prepare user_task 0x30_0000 0x30_F000 0x20_5000 0x20_6000 t.mem in
    made-word user_task_b 0x30_1000 0x30_E000 0x20_7000 second_pages m2 hb (omega arith)
      (omega arith) b h (omega arith) (omega arith)
    ∙ made-word user_task 0x30_0000 0x30_F000 0x20_5000 first_pages t.mem ha (omega arith)
        (omega arith) b h lo (omega arith)

-- A later memory has the directories, the tables and the code of the tasks.
pub record KeepsTasks (out m : Memory) : Type 0 where
  pub spaces : (a : ℕ) → 0x20_5000 ≤ a → a < 0x20_9000 → m a ≡ out a
  pub codes : (a : ℕ) → 0x30_0000 ≤ a → a < 0x30_2000 → m a ≡ out a

-- In such a memory both tasks run.
pub later-Runs :
    (user_task user_task_b : ℕ) (t : Tasks) (m : Memory)
    → KernelTables t.mem
    → user_task + 1024 ≤ 0x20_0000
    → user_task_b + 1024 ≤ 0x20_0000
    → KeepsTasks (launch_tasks user_task user_task_b t).mem m
    → Runs user_task 0x30_0000 0x30_F000 0x20_5000 t.mem m
      × Runs user_task_b 0x30_1000 0x30_E000 0x20_7000 t.mem m
unfolding launch_tasks
later-Runs user_task user_task_b t m k ha hb keep =
    let m2 = prepare user_task 0x30_0000 0x30_F000 0x20_5000 0x20_6000 t.mem in
    let m4 = prepare user_task_b 0x30_1000 0x30_E000 0x20_7000 0x20_8000 m2 in
    let first =
      made-Runs user_task 0x30_0000 0x30_F000 0x20_5000 first_pages t.mem ha (omega arith)
        (omega arith) k in
    let k2 =
      made_tables user_task 0x30_0000 0x30_F000 0x20_5000 first_pages t.mem ha (omega arith)
        (omega arith) k in
    let second =
      made-Runs user_task_b 0x30_1000 0x30_E000 0x20_7000 second_pages m2 hb (omega arith)
        (omega arith) k2 in
    let later =
      made-byte user_task_b 0x30_1000 0x30_E000 0x20_7000 second_pages m2 hb (omega arith)
        (omega arith) in
    let early =
      made-byte user_task 0x30_0000 0x30_F000 0x20_5000 first_pages t.mem ha (omega arith)
        (omega arith) in
    let word : (a : ℕ) → 0x20_5000 ≤ a → a < 0x20_8FFD → read32 m a ≡ read32 m4 a = λ a lo hi.
      read32_same m4 m a
        (λ x xlo xhi. keep.spaces x (omega (arith, lo, xlo)) (omega (arith, hi, xhi))) in
    let same : (v : ℕ) → v / 2 ^ 22 ≡ 256 → translate m 0x20_5000 v ≡ translate m2 0x20_5000 v =
      λ v d.
        later_translation first_pages
          (built user_task 0x30_0000 0x30_F000 0x20_5000 first_pages t.mem ha (omega arith)
            (omega arith))
          (copied_tables user_task 0x30_0000 0x30_F000 0x20_5000 first_pages t.mem ha (omega arith)
            (omega arith) k)
          m
          (λ a h lo hi.
            word a lo (omega (arith, h, hi))
            ∙ made-word user_task_b 0x30_1000 0x30_E000 0x20_7000 second_pages m2 hb (omega arith)
                (omega arith) a h hi (omega (arith, hi)))
          v d in
    let same2 : (v : ℕ) → v / 2 ^ 22 ≡ 256 → translate m 0x20_7000 v ≡ translate m4 0x20_7000 v =
      λ v d.
        later_translation second_pages
          (built user_task_b 0x30_1000 0x30_E000 0x20_7000 second_pages m2 hb (omega arith)
            (omega arith))
          (copied_tables user_task_b 0x30_1000 0x30_E000 0x20_7000 second_pages m2 hb (omega arith)
            (omega arith) k2)
          m (λ a h lo hi. word a (omega (arith, lo)) (omega (arith, h, hi))) v d in
    (
      record {
        code_at = λ j h. same (0x4000_0000 + j) (omega arith) ∙ first.code_at j h;
        code_byte = λ j h.
            keep.codes (0x30_0000 + j) (omega arith) (omega (arith, h))
            ∙ later (0x30_0000 + j) (λ r. omega (arith, r, h))
            ∙ ground (arith, first.code_byte j h);
        stack_at = λ j h. same (0x4000_1000 + j) (omega arith) ∙ first.stack_at j h;
      },
      record {
        code_at = λ j h. same2 (0x4000_0000 + j) (omega arith) ∙ second.code_at j h;
        code_byte = λ j h.
            keep.codes (0x30_1000 + j) (omega arith) (omega (arith, h))
            ∙ second.code_byte j h
            ∙ early (user_task_b + j) (λ r. omega (arith, r, hb, h))
            ∙ ground (arith, hb, h);
        stack_at = λ j h. same2 (0x4000_1000 + j) (omega arith) ∙ second.stack_at j h;
      },
    )

-- Both tasks are registered, in the first slots, and the first one is current.
pub record Registered (s out : Sched) : Type 0 where
  pub in_order : InOrder out
  pub two : out.ntasks ≡ 2
  pub current : out.cur_task ≡ some 0
  pub first :
      out.pool 0 ≡ new_task 0x4000_0000 0x23 0x202 0x4000_1FF0 0x33 0x20_5000 0x32_1000 (s.pool 0)
  pub second :
      out.pool 1 ≡ new_task 0x4000_0000 0x23 0x202 0x4000_1FF0 0x33 0x20_7000 0x32_3000 (s.pool 1)

pub launch_tasks-Registered :
    (user_task user_task_b : ℕ) (t : Tasks)
    → InOrder t.sched
    → t.sched.ntasks ≡ 0
    → Registered t.sched (launch_tasks user_task user_task_b t).sched
unfolding launch_tasks
launch_tasks-Registered user_task user_task_b t v e =
    let one =
      sched_add_task-IsValid 0x4000_0000 0x23 0x202 0x4000_1FF0 0x33 0x20_5000 0x32_1000 t.sched v
        (omega (arith, e)) in
    let s1 = sched_add_task 0x4000_0000 0x23 0x202 0x4000_1FF0 0x33 0x20_5000 0x32_1000 t.sched in
    let two =
      sched_add_task-IsValid 0x4000_0000 0x23 0x202 0x4000_1FF0 0x33 0x20_7000 0x32_3000 s1 one.0
        (omega (arith, e, one.1)) in
    let n1 : s1.ntasks ≡ 1 = omega (arith, e, one.1) in
    let pool0 =
      sched_add_task_pool 0x4000_0000 0x23 0x202 0x4000_1FF0 0x33 0x20_5000 0x32_1000 t.sched 0 e in
    let pool1 =
      sched_add_task_pool 0x4000_0000 0x23 0x202 0x4000_1FF0 0x33 0x20_7000 0x32_3000 s1 1 n1 in
    record {
      in_order = two.0;
      two = omega (arith, two.1, n1);
      current = ground (arith, two.3, n1, one.3, e);
      first = two.2 0 (λ z. omega (arith, z, n1)) ∙ pool0;
      second =
          pool1
          ∙ ap
              (λ (x : Task). new_task 0x4000_0000 0x23 0x202 0x4000_1FF0 0x33 0x20_7000 0x32_3000 x)
              (one.2 1 (λ z. omega (arith, z, e)));
    }

-- The bytes below the kernel's directory.
pub launch_tasks-byte :
    (user_task user_task_b : ℕ) (t : Tasks) (x : ℕ)
    → user_task + 1024 ≤ 0x20_0000
    → user_task_b + 1024 ≤ 0x20_0000
    → x < 0x20_0000
    → (launch_tasks user_task user_task_b t).mem x ≡ t.mem x
unfolding launch_tasks
launch_tasks-byte user_task user_task_b t x ha hb h =
    let m2 = prepare user_task 0x30_0000 0x30_F000 0x20_5000 0x20_6000 t.mem in
    made-byte user_task_b 0x30_1000 0x30_E000 0x20_7000 second_pages m2 hb (omega arith)
      (omega arith) x (λ r. omega (arith, r, h))
    ∙ ground (arith, h)
    ∙ made-byte user_task 0x30_0000 0x30_F000 0x20_5000 first_pages t.mem ha (omega arith)
        (omega arith) x (λ r. omega (arith, r, h))
    ∙ ground (arith, h)
