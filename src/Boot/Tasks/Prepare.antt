-- ===== src/Boot/Tasks/Prepare.antt =====
-- Preparing one of the first tasks: its code and its address space.
use pepin_os.Base.{
  ℕ, ◌+◌, ◌-◌, ◌*◌, ◌/◌, ◌%◌, ◌^◌, ◌≤◌, ◌<◌, ◌≡◌, refl, ap, ◌∙◌, arith, ◌==◌, ltb, leb, true, false,
  ◌&&◌, some, if◌then◌else◌,
}
use pepin_os.Base.Memory.{Memory, read32, copy_below, read32_same}
use pepin_os.Mm.Paging.Translate.{entry, frame_of, translate, translate_same}
use pepin_os.Mm.Paging.Kernel.{KernelTables}
use pepin_os.Mm.Paging.Space.{Layout, Built, create_task_space-Built, create_task_space-byte}
use pepin_os.Mm.Paging.Task.{built_translation, space-KernelTables}
use pepin_os.Boot.Tasks.{copy_code, prepare}

-- The task with the directory `pd` runs a copy of the code at `src`, with a stack of its own.
pub record Runs (src code stack pd : ℕ) (mem out : Memory) : Type 0 where
  pub code_at :
      (j : ℕ)
      → j < 4096
      → translate out pd (0x4000_0000 + j)
        ≡ some (record { address = code + j; writable = 1; user = 1 })
  pub code_byte : (j : ℕ) → j < 1024 → out (code + j) ≡ mem (src + j)
  pub stack_at :
      (j : ℕ)
      → j < 4096
      → translate out pd (0x4000_1000 + j)
        ≡ some (record { address = stack + j; writable = 1; user = 1 })

copy_code-byte :
    (dst src : ℕ) (mem : Memory) (x : ℕ)
    → src + 1024 ≤ dst
    → copy_code dst src mem x
      ≡ (if leb dst x && ltb x (dst + 1024) then mem (src + (x - dst)) else mem x)
unfolding copy_code
copy_code-byte dst src mem x h = copy_below 1024 0 dst src mem x h ∙ ground arith

copied_word :
    (dst src : ℕ) (mem : Memory) (b : ℕ)
    → src + 1024 ≤ dst
    → b + 4 ≤ dst
    → read32 (copy_code dst src mem) b ≡ read32 mem b
copied_word dst src mem b h below =
    read32_same mem (copy_code dst src mem) b
      (λ x lo hi. copy_code-byte dst src mem x h ∙ ground (arith, hi, below))

-- The layouts of process/task.h.
task_pages :
    (code stack pd : ℕ)
    → (code % 4096 ≡ 0) × (code < 2 ^ 32)
    → (stack % 4096 ≡ 0) × (stack < 2 ^ 32)
    → (pd % 4096 ≡ 0) × (0x20_5000 ≤ pd) × (pd + 8192 ≤ 2 ^ 32)
    → Layout code stack 0x4000_0000 0x4000_1000 pd (pd + 0x1000)
task_pages code stack pd hc hs hp = record {
  pd_page = (hp.0, hp.1, omega (arith, hp));
  pt_page = (omega (arith, hp), omega (arith, hp), omega (arith, hp));
  apart = λ e. omega (arith, e);
  code_page = hc;
  stack_page = hs;
  directory = (omega arith, omega arith);
  one_table = refl;
  two_pages = λ e. omega (arith, e);
}

tables_kept :
    (mem out : Memory)
    → ((b : ℕ) → b % 4 ≡ 0 → b < 0x20_5000 → read32 out b ≡ read32 mem b)
    → KernelTables mem
    → KernelTables out
tables_kept mem out same k = record {
  directory = λ i h. same (0x20_0000 + 4 * i) (omega arith) (omega arith) ∙ k.directory i h;
  tables = λ i h. same (0x20_1000 + 4 * i) (omega arith) (omega arith) ∙ k.tables i h;
}

module _ {code stack pd : ℕ} (l : Layout code stack 0x4000_0000 0x4000_1000 pd (pd + 0x1000))
    {mem out : Memory} (b : Built code stack 0x4000_0000 0x4000_1000 pd (pd + 0x1000) mem out)
    (k : KernelTables mem) where
  code_page :
      (j : ℕ)
      → j < 4096
      → translate out pd (0x4000_0000 + j)
        ≡ some (record { address = code + j; writable = 1; user = 1 })
  code_page j h =
      let low : ltb (0x4000_0000 + j) (2 ^ 24) ≡ false = ground arith in
      let other : 0x4_0001 == (0x4000_0000 + j) / 2 ^ 12 ≡ false = ground arith in
      let here : 0x4_0000 == (0x4000_0000 + j) / 2 ^ 12 ≡ true = ground arith in
      let offset : (0x4000_0000 + j) % 4096 ≡ j = omega arith in
      built_translation l b k (0x4000_0000 + j) (omega arith) ∙ rw (low, other, here, offset) refl

  stack_page :
      (j : ℕ)
      → j < 4096
      → translate out pd (0x4000_1000 + j)
        ≡ some (record { address = stack + j; writable = 1; user = 1 })
  stack_page j h =
      let low : ltb (0x4000_1000 + j) (2 ^ 24) ≡ false = ground arith in
      let here : 0x4_0001 == (0x4000_1000 + j) / 2 ^ 12 ≡ true = ground arith in
      let offset : (0x4000_1000 + j) % 4096 ≡ j = omega arith in
      built_translation l b k (0x4000_1000 + j) (omega arith) ∙ rw (low, here, offset) refl

  -- A later memory with the same words in the two pages.
  pub later_translation :
      (m : Memory)
      → ((a : ℕ) → a % 4 ≡ 0 → pd ≤ a → a < pd + 0x2000 → read32 m a ≡ read32 out a)
      → (v : ℕ) → v / 2 ^ 22 ≡ 256
      → translate m pd v ≡ translate out pd v
  later_translation m same v dir =
      let pde : entry out pd (v / 2 ^ 22) ≡ pd + 0x1007 =
        b.pd_entry (v / 2 ^ 22) (omega (arith, dir)) ∙ ground (arith, dir) in
      translate_same out m pd pd v
        (same (pd + 4 * (v / 2 ^ 22)) (omega (arith, l.pd_page)) (omega arith) (omega (arith, dir)))
        (λ p.
          same (frame_of (entry out pd (v / 2 ^ 22)) + 4 * (v / 2 ^ 12 % 1024)) (omega arith)
            (omega (arith, pde, l.pd_page)) (omega (arith, pde)))

-- A task that is prepared.
module _ (src code stack pd : ℕ) (l : Layout code stack 0x4000_0000 0x4000_1000 pd (pd + 0x1000))
    (mem : Memory) (below : src + 1024 ≤ 0x20_0000) (above : 0x30_0000 ≤ code)
    (low : pd < 0x20_8000) where
  abbrev pub made : Memory
  made = prepare src code stack pd (pd + 0x1000) mem

  abbrev pub copied : Memory
  copied = copy_code code src mem

  pub made-byte :
      (x : ℕ)
      → ¬ ((pd ≤ x) × (x < pd + 0x2000))
      → made x ≡ (if leb code x && ltb x (code + 1024) then mem (src + (x - code)) else mem x)
  made-byte x out =
      create_task_space-byte code stack 0x4000_0000 0x4000_1000 pd (pd + 0x1000) l
        (copy_code code src mem) x (λ e. out (omega (arith, e, l.pd_page)))
        (λ e. out (omega (arith, e, l.pd_page)))
      ∙ copy_code-byte code src mem x (omega (arith, below, above))

  pub built : Built code stack 0x4000_0000 0x4000_1000 pd (pd + 0x1000) copied made
  built =
      create_task_space-Built code stack 0x4000_0000 0x4000_1000 pd (pd + 0x1000) l
        (copy_code code src mem)

  pub made-word : (b : ℕ) → b % 4 ≡ 0 → b < pd → b < 0x30_0000 → read32 made b ≡ read32 mem b
  made-word b h lo hi =
      built.outside b h (λ e. omega (arith, e, l.pd_page, lo))
        (λ e. omega (arith, e, l.pd_page, lo))
      ∙ copied_word code src mem b (omega (arith, below, above)) (omega (arith, h, hi, above))

  module _ (k : KernelTables mem) where
    pub copied_tables : KernelTables copied
    copied_tables =
        tables_kept mem (copy_code code src mem)
          (λ b h lo.
            copied_word code src mem b (omega (arith, below, above)) (omega (arith, lo, above)))
          k

    pub made_tables : KernelTables made
    made_tables = space-KernelTables l built copied_tables

    pub made-Runs : Runs src code stack pd mem made
    made-Runs = record {
      code_at = code_page l built copied_tables;
      code_byte = λ j h.
          let here : src + (code + j - code) ≡ src + j = omega arith in
          made-byte (code + j) (λ r. omega (arith, r, low, above)) ∙ ground (arith, ap mem here);
      stack_at = stack_page l built copied_tables;
    }

pub first_pages : Layout 0x30_0000 0x30_F000 0x4000_0000 0x4000_1000 0x20_5000 0x20_6000
first_pages =
    task_pages 0x30_0000 0x30_F000 0x20_5000 (refl, omega arith) (refl, omega arith)
      (refl, omega arith, omega arith)

pub second_pages : Layout 0x30_1000 0x30_E000 0x4000_0000 0x4000_1000 0x20_7000 0x20_8000
second_pages =
    task_pages 0x30_1000 0x30_E000 0x20_7000 (refl, omega arith) (refl, omega arith)
      (refl, omega arith, omega arith)
