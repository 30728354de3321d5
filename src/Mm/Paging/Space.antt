-- ===== src/Mm/Paging/Space.antt =====
-- The words that `create_task_space` writes.
use pepin_os.Base.{
  ℕ, ◌+◌, ◌-◌, ◌*◌, ◌/◌, ◌%◌, ◌^◌, ◌≤◌, ◌<◌, ◌≡◌, refl, ap, ◌∙◌, ◌≢◌, inr, arith, ◌==◌, ltb, leb,
  ◌&&◌, ◌||◌, if◌then◌else◌, for_range, update,
}
use pepin_os.Base.Memory.{
  Memory, read32, write32, fill32, copy32, read32-write32, write32-byte, for_range_outside,
}
use pepin_os.Base.Bits.Masks.{bit_or_present_write, bit_or_present_write_user, bit_and_low}
use pepin_os.Mm.Paging.{memzero, create_task_space, present_write}
use pepin_os.Mm.Paging.Translate.{entry}
use pepin_os.Mm.Paging.Kernel.{read32-memzero}

-- The two pages of tables lie behind the kernel's, the code and the stack are different pages
-- of one directory entry between 16 MB and 3 GB, and everything is aligned to pages.
pub record Layout (code_phys stack_phys code_virt stack_virt pd pt : ℕ) : Type 0 where
  pub pd_page : (pd % 4096 ≡ 0) × (0x20_5000 ≤ pd) × (pd + 4096 ≤ 2 ^ 32)
  pub pt_page : (pt % 4096 ≡ 0) × (0x20_5000 ≤ pt) × (pt + 4096 ≤ 2 ^ 32)
  pub apart : pd ≢ pt
  pub code_page : (code_phys % 4096 ≡ 0) × (code_phys < 2 ^ 32)
  pub stack_page : (stack_phys % 4096 ≡ 0) × (stack_phys < 2 ^ 32)
  pub directory : (4 ≤ code_virt / 2 ^ 22) × (code_virt / 2 ^ 22 < 768)
  pub one_table : stack_virt / 2 ^ 22 ≡ code_virt / 2 ^ 22
  pub two_pages : stack_virt / 2 ^ 12 ≢ code_virt / 2 ^ 12

-- The words of the two pages afterwards.
pub record Built (code_phys stack_phys code_virt stack_virt pd pt : ℕ) (mem out : Memory)
    : Type 0 where
  pub outside :
      (b : ℕ)
      → b % 4 ≡ 0
      → b / 4096 ≢ pd / 4096
      → b / 4096 ≢ pt / 4096
      → read32 out b ≡ read32 mem b
  pub pd_entry :
      (i : ℕ)
      → i < 1024
      → entry out pd i ≡ (
          if leb 768 i && ltb i 772
          then 0x20_1000 + 4096 * (i - 768) + 3
          else if ltb i 4
          then entry mem 0x20_0000 i
          else if code_virt / 2 ^ 22 == i
          then pt + 7
          else 0)
  pub pt_entry :
      (j : ℕ)
      → j < 1024
      → entry out pt j ≡ (
          if stack_virt / 2 ^ 12 % 1024 == j
          then stack_phys + 7
          else if code_virt / 2 ^ 12 % 1024 == j
          then code_phys + 7
          else 0)

module _ (code_phys stack_phys code_virt stack_virt pd pt : ℕ)
    (l : Layout code_phys stack_phys code_virt stack_virt pd pt) (mem : Memory) where
  -- Memory before the copy of the kernel's entries.
  own_entries : Memory
  own_entries =
      let cleared = memzero pt 4096 (memzero pd 4096 mem) in
      let m1 = write32 cleared (pt + 4 * (code_virt / 2 ^ 12 % 1024)) (code_phys + 7) in
      let m2 = write32 m1 (pt + 4 * (stack_virt / 2 ^ 12 % 1024)) (stack_phys + 7) in
      write32 m2 (pd + 4 * (code_virt / 2 ^ 22)) (pt + 7)

  space : Memory
  space = create_task_space code_phys stack_phys code_virt stack_virt pd pt mem

  read32-own_entries :
      (b : ℕ)
      → b % 4 ≡ 0
      → read32 own_entries b ≡ (
          if pd + 4 * (code_virt / 2 ^ 22) == b
          then pt + 7
          else if pt + 4 * (stack_virt / 2 ^ 12 % 1024) == b
          then stack_phys + 7
          else if pt + 4 * (code_virt / 2 ^ 12 % 1024) == b
          then code_phys + 7
          else if (leb pt b && ltb b (pt + 4096)) || (leb pd b && ltb b (pd + 4096))
          then 0
          else read32 mem b)
  unfolding own_entries
  read32-own_entries b hb =
      let m0 = memzero pt 4096 (memzero pd 4096 mem) in
      let at1 = pt + 4 * (code_virt / 2 ^ 12 % 1024) in
      let at2 = pt + 4 * (stack_virt / 2 ^ 12 % 1024) in
      let at3 = pd + 4 * (code_virt / 2 ^ 22) in
      let m1 = write32 m0 at1 (code_phys + 7) in
      let m2 = write32 m1 at2 (stack_phys + 7) in
      ground (
        arith,
        read32-write32 m2 at3 (pt + 7) b (omega (arith, l.pd_page)) hb (omega (arith, l.pt_page)),
        read32-write32 m1 at2 (stack_phys + 7) b (omega (arith, l.pt_page)) hb
            (omega (arith, l.stack_page)),
        read32-write32 m0 at1 (code_phys + 7) b (omega (arith, l.pt_page)) hb
            (omega (arith, l.code_page)),
        read32-memzero pt 4096 (memzero pd 4096 mem) b (omega (arith, l.pt_page)) refl hb,
        read32-memzero pd 4096 mem b (omega (arith, l.pd_page)) refl hb,
      )

  space_loops :
      space
      ≡ for_range 4 768
          (λ k m. write32 m (pd + 4 * k) (present_write (0x20_1000 + 4096 * (k - 768))))
          (for_range 4 0 (λ k m. write32 m (pd + 4 * k) (read32 m (0x20_0000 + 4 * k))) own_entries)
  unfolding space create_task_space own_entries
  space_loops =
      rw
        (
          bit_or_present_write_user code_phys l.code_page.0,
          bit_or_present_write_user stack_phys l.stack_page.0,
          bit_or_present_write_user pt l.pt_page.0,
          bit_and_low 10 (code_virt / 2 ^ 12),
          bit_and_low 10 (stack_virt / 2 ^ 12),
        )
        refl

  read32-space :
      (b : ℕ)
      → b % 4 ≡ 0
      → read32 space b ≡ (
          if leb (pd + 0xC00) b && ltb b (pd + 0xC10)
          then 0x20_1000 + 4096 * ((b - pd) / 4 - 768) + 3
          else if leb pd b && ltb b (pd + 16)
          then read32 own_entries (0x20_0000 + (b - pd))
          else read32 own_entries b)
  read32-space b hb =
      let loop =
        for_range 4 0 (λ k m. write32 m (pd + 4 * k) (read32 m (0x20_0000 + 4 * k))) own_entries in
      let high =
        fill32 4 768 pd (λ k. present_write (0x20_1000 + 4096 * (k - 768))) loop b
          (omega (arith, l.pd_page)) hb
          (λ k h.
            omega (arith, bit_or_present_write (0x20_1000 + 4096 * (k - 768)) (omega arith))) in
      let low =
        copy32 4 0 pd 0x20_0000 own_entries b (omega (arith, l.pd_page)) refl hb
          (inr (omega (arith, l.pd_page))) in
      ap (λ (m : Memory). read32 m b) space_loops
      ∙ high
      ∙ ground
          (arith, low, bit_or_present_write (0x20_1000 + 4096 * ((b - pd) / 4 - 768)) (omega arith))

  -- Words outside the two pages stay.
  space-outside :
      (b : ℕ)
      → b % 4 ≡ 0
      → b / 4096 ≢ pd / 4096
      → b / 4096 ≢ pt / 4096
      → read32 space b ≡ read32 mem b
  space-outside b hb nd nt =
      ground (arith, read32-space b hb, read32-own_entries b hb, l.pd_page, l.pt_page, nd, nt)

  pd_entry :
      (i : ℕ)
      → i < 1024
      → entry space pd i ≡ (
          if leb 768 i && ltb i 772
          then 0x20_1000 + 4096 * (i - 768) + 3
          else if ltb i 4
          then entry mem 0x20_0000 i
          else if code_virt / 2 ^ 22 == i
          then pt + 7
          else 0)
  pd_entry i h =
      let b = pd + 4 * i in
      let place : b - pd ≡ 4 * i = omega arith in
      let div : 4 * i / 4 ≡ i = omega arith in
      let word = read32-space b (omega (arith, l.pd_page)) in
      ground (
        arith,
        rw (place, div) at word,
        read32-own_entries b (omega (arith, l.pd_page)),
        read32-own_entries (0x20_0000 + 4 * i) (omega arith),
        l.pd_page,
        l.pt_page,
        l.apart,
        l.directory,
      )

  pt_entry :
      (j : ℕ)
      → j < 1024
      → entry space pt j ≡ (
          if stack_virt / 2 ^ 12 % 1024 == j
          then stack_phys + 7
          else if code_virt / 2 ^ 12 % 1024 == j
          then code_phys + 7
          else 0)
  pt_entry j h =
      let b = pt + 4 * j in
      ground (
        arith,
        read32-space b (omega (arith, l.pt_page)),
        read32-own_entries b (omega (arith, l.pt_page)),
        l.pd_page,
        l.pt_page,
        l.apart,
        l.directory,
      )

  pub create_task_space-Built :
      Built code_phys stack_phys code_virt stack_virt pd pt mem
        (create_task_space code_phys stack_phys code_virt stack_virt pd pt mem)
  unfolding space
  create_task_space-Built = record {
    outside = space-outside;
    pd_entry = pd_entry;
    pt_entry = pt_entry;
  }

  -- The bytes outside the two pages stay.
  pub create_task_space-byte :
      (x : ℕ)
      → x / 4096 ≢ pd / 4096
      → x / 4096 ≢ pt / 4096
      → create_task_space code_phys stack_phys code_virt stack_virt pd pt mem x ≡ mem x
  unfolding space own_entries memzero
  create_task_space-byte x nd nt =
      let in_pd : (i w : ℕ) (m : Memory) → i < 1024 → write32 m (pd + 4 * i) w x ≡ m x =
        λ i w m h. write32-byte m (pd + 4 * i) w x ∙ ground (arith, l.pd_page, nd, h) in
      let in_pt : (i w : ℕ) (m : Memory) → i < 1024 → write32 m (pt + 4 * i) w x ≡ m x =
        λ i w m h. write32-byte m (pt + 4 * i) w x ∙ ground (arith, l.pt_page, nt, h) in
      let zeroed = memzero pt 4096 (memzero pd 4096 mem) in
      let m1 = write32 zeroed (pt + 4 * (code_virt / 2 ^ 12 % 1024)) (code_phys + 7) in
      let m2 = write32 m1 (pt + 4 * (stack_virt / 2 ^ 12 % 1024)) (stack_phys + 7) in
      let low =
        for_range 4 0 (λ k m. write32 m (pd + 4 * k) (read32 m (0x20_0000 + 4 * k))) own_entries in
      ap (λ (m : Memory). m x) space_loops
      ∙ for_range_outside 4 768
          (λ k m. write32 m (pd + 4 * k) (present_write (0x20_1000 + 4096 * (k - 768)))) low x
          (λ k m lo hi. in_pd k (present_write (0x20_1000 + 4096 * (k - 768))) m (omega arith))
      ∙ for_range_outside 4 0 (λ k m. write32 m (pd + 4 * k) (read32 m (0x20_0000 + 4 * k)))
          own_entries x (λ k m lo hi. in_pd k (read32 m (0x20_0000 + 4 * k)) m (omega arith))
      ∙ in_pd (code_virt / 2 ^ 22) (pt + 7) m2 (omega (arith, l.directory))
      ∙ in_pt (stack_virt / 2 ^ 12 % 1024) (stack_phys + 7) m1 (omega arith)
      ∙ in_pt (code_virt / 2 ^ 12 % 1024) (code_phys + 7) zeroed (omega arith)
      ∙ for_range_outside 4096 0 (λ k m. update m (pt + k) 0) (memzero pd 4096 mem) x
          (λ k m lo hi. ground (arith, l.pt_page, nt))
      ∙ for_range_outside 4096 0 (λ k m. update m (pd + k) 0) mem x
          (λ k m lo hi. ground (arith, l.pd_page, nd))
