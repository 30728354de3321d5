-- ===== src/Mm/Paging/Task.antt =====
-- The address space of one of the first tasks.
use pepin_os.Base.{
  ℕ, ◌+◌, ◌-◌, ◌*◌, ◌/◌, ◌%◌, ◌^◌, ◌≤◌, ◌<◌, ◌≡◌, ap, ◌∙◌, ◌≢◌, inl, inr, arith, ◌==◌, ltb, leb,
  ◌&&◌, none, some, if◌then◌else◌, Bool-cases,
}
use pepin_os.Base.Memory.{Memory, read32}
use pepin_os.Mm.Paging.{create_task_space}
use pepin_os.Mm.Paging.Space.{Layout, Built, create_task_space-Built}
use pepin_os.Mm.Paging.Translate.{
  entry, reached, translate, translate_entries, translate_absent, reached_lem,
}
use pepin_os.Mm.Paging.Kernel.{KernelTables, identity}

module _ {code_phys stack_phys code_virt stack_virt pd pt : ℕ}
    (l : Layout code_phys stack_phys code_virt stack_virt pd pt) {mem space : Memory}
    (built : Built code_phys stack_phys code_virt stack_virt pd pt mem space)
    (k : KernelTables mem) where
  kernel_word : (b : ℕ) → b % 4 ≡ 0 → b < 0x20_5000 → read32 space b ≡ read32 mem b
  kernel_word b hb h =
      built.outside b hb (λ e. omega (arith, e, l.pd_page)) (λ e. omega (arith, e, l.pt_page))

  pub space-KernelTables : KernelTables space
  space-KernelTables = record {
    directory =
        λ i h. kernel_word (0x20_0000 + 4 * i) (omega arith) (omega arith) ∙ k.directory i h;
    tables = λ i h. kernel_word (0x20_1000 + 4 * i) (omega arith) (omega arith) ∙ k.tables i h;
  }

  first_entries : (i : ℕ) → i < 4 → entry space pd i ≡ 0x20_1000 + 4096 * i + 7
  first_entries i h = built.pd_entry i (omega arith) ∙ ground (arith, k.directory i h)

  -- An address in the table of the code and the stack.
  own_page :
      (v pte : ℕ)
      → v / 2 ^ 22 ≡ code_virt / 2 ^ 22
      → entry space pt (v / 2 ^ 12 % 1024) ≡ pte
      → translate space pd v ≡ reached (pt + 7) pte v
  own_page v pte same e =
      translate_entries space pd v (pt + 7) pte
        (built.pd_entry (v / 2 ^ 22) (omega (arith, l.directory))
          ∙ ground (arith, l.directory, same))
        (ap (λ (a : ℕ). entry space a (v / 2 ^ 12 % 1024)) (omega (arith, l.pt_page)) ∙ e)

  high_page :
      (v : ℕ)
      → 768 ≤ v / 2 ^ 22
      → v / 2 ^ 22 < 772
      → translate space pd v ≡ some (record { address = v - 0xC000_0000; writable = 1; user = 0 })
  high_page v lo hi =
      let d = v / 2 ^ 22 - 768 in
      let pde = 0x20_1000 + 4096 * d + 3 in
      let pte = 4096 * (v / 2 ^ 12 - 0xC_0000) + 7 in
      translate_entries space pd v pde pte
        (built.pd_entry (v / 2 ^ 22) (omega arith) ∙ ground arith)
        (ap (read32 space) (omega arith)
          ∙ space-KernelTables.tables (v / 2 ^ 12 - 0xC_0000) (omega arith))
      ∙ reached_lem pde pte v (v - 0xC000_0000) 1 0 (omega arith) (omega arith) (omega arith)
          (omega arith) (omega arith)

  own_present :
      (v phys : ℕ)
      → v / 2 ^ 22 ≡ code_virt / 2 ^ 22
      → phys % 4096 ≡ 0
      → entry space pt (v / 2 ^ 12 % 1024) ≡ phys + 7
      → translate space pd v ≡ some (record { address = phys + v % 4096; writable = 1; user = 1 })
  own_present v phys same aligned e =
      let p = l.pt_page.0 in
      own_page v (phys + 7) same e
      ∙ reached_lem (pt + 7) (phys + 7) v (phys + v % 4096) 1 1 (omega arith) (omega arith)
          (omega arith) (omega arith) (omega arith)

  own_absent :
      (v : ℕ)
      → stack_virt / 2 ^ 12 ≢ v / 2 ^ 12
      → code_virt / 2 ^ 12 ≢ v / 2 ^ 12
      → 4 ≤ v / 2 ^ 22
      → v / 2 ^ 22 < 1024
      → ¬ ((768 ≤ v / 2 ^ 22) × (v / 2 ^ 22 < 772))
      → translate space pd v ≡ none
  own_absent v ns nc lo hi nk = elim (Bool-cases (v / 2 ^ 22 == code_virt / 2 ^ 22)) [
    | inl same ↦
        own_page v 0 (ground arith)
          (built.pt_entry (v / 2 ^ 12 % 1024) (omega arith) ∙ ground (arith, l.one_table))
        ∙ ground arith
    | inr other ↦ translate_absent space pd v (built.pd_entry (v / 2 ^ 22) hi ∙ ground arith)
  ]

  pub built_translation :
      (v : ℕ)
      → v < 2 ^ 32
      → translate space pd v ≡ (
          if ltb v (2 ^ 24)
          then some (record { address = v; writable = 1; user = 1 })
          else if stack_virt / 2 ^ 12 == v / 2 ^ 12
          then some (record { address = stack_phys + v % 4096; writable = 1; user = 1 })
          else if code_virt / 2 ^ 12 == v / 2 ^ 12
          then some (record { address = code_phys + v % 4096; writable = 1; user = 1 })
          else if leb 0xC000_0000 v && ltb v 0xC100_0000
          then some (record { address = v - 0xC000_0000; writable = 1; user = 0 })
          else none)
  built_translation v h = elim (Bool-cases (ltb v (2 ^ 24))) [
    | inl low ↦ rw low (identity space pd v (space-KernelTables) (first_entries) (ground arith))
    | inr high ↦ elim (Bool-cases (stack_virt / 2 ^ 12 == v / 2 ^ 12)) [
      | inl stack ↦
          rw (high, stack)
            (own_present v stack_phys (ground (arith, l.one_table)) l.stack_page.0
              (built.pt_entry (v / 2 ^ 12 % 1024) (omega arith) ∙ ground arith))
      | inr not_stack ↦ elim (Bool-cases (code_virt / 2 ^ 12 == v / 2 ^ 12)) [
        | inl code ↦
            rw (high, not_stack, code)
              (own_present v code_phys (ground arith) l.code_page.0 (
                built.pt_entry (v / 2 ^ 12 % 1024) (omega arith)
                ∙ ground (arith, l.one_table, l.two_pages)))
        | inr not_code ↦ elim (Bool-cases (leb 0xC000_0000 v && ltb v 0xC100_0000)) [
          | inl kernel ↦
              rw (high, not_stack, not_code, kernel) (high_page v (ground arith) (ground arith))
          | inr none_there ↦
              rw (high, not_stack, not_code, none_there)
                (own_absent v (ground arith) (ground arith) (ground arith) (omega arith)
                  (ground arith))
        ]
      ]
    ]
  ]

-- With the kernel's tables as `init_paging` leaves them, two pages for the tables behind those,
-- and the code and the stack in different pages of one directory entry between 16 MB and 3 GB,
-- the directory that `create_task_space` makes maps the first 16 MB to themselves, the code's
-- and the stack's page to their frames, all these for user code, the 16 MB from 3 GB on to the
-- first 16 MB for the kernel only, and no other address.
pub create_task_space_lem :
    (code_phys stack_phys code_virt stack_virt pd pt : ℕ)
    → Layout code_phys stack_phys code_virt stack_virt pd pt
    → (mem : Memory) (v : ℕ) → KernelTables mem
    → v < 2 ^ 32
    → translate (create_task_space code_phys stack_phys code_virt stack_virt pd pt mem) pd v ≡ (
        if ltb v (2 ^ 24)
        then some (record { address = v; writable = 1; user = 1 })
        else if stack_virt / 2 ^ 12 == v / 2 ^ 12
        then some (record { address = stack_phys + v % 4096; writable = 1; user = 1 })
        else if code_virt / 2 ^ 12 == v / 2 ^ 12
        then some (record { address = code_phys + v % 4096; writable = 1; user = 1 })
        else if leb 0xC000_0000 v && ltb v 0xC100_0000
        then some (record { address = v - 0xC000_0000; writable = 1; user = 0 })
        else none)
create_task_space_lem code_phys stack_phys code_virt stack_virt pd pt l mem v k h =
    built_translation l
      (create_task_space-Built code_phys stack_phys code_virt stack_virt pd pt l mem) k v h
