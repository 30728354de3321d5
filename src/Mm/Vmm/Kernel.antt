-- ===== src/Mm/Vmm/Kernel.antt =====
-- Mapping and unmapping in the kernel's directory.
use pepin_os.Base.{
  ◌<◌, ℕ, ◌+◌, ◌*◌, ◌/◌, ◌%◌, ◌^◌, ◌<◌, ◌≡◌, refl, sym, ap, ◌∙◌, ◌≢◌, ◌⊎◌, inl, inr, arith, ◌==◌,
  bit_and, true, false, Option, none, if◌then◌else◌, Bool-cases,
}
use pepin_os.Base.Bits.Masks.{bit_or_present_write, bit_and_low, bit_and_page, present_bit}
use pepin_os.Base.Memory.{Memory, write32, read32-lt}
use pepin_os.Mm.Pmm.{Pmm, alloc_page}
use pepin_os.Mm.Pmm.Valid.{IsValid}
use pepin_os.Mm.Paging.{init_paging, kernel_pd_addr}
use pepin_os.Mm.Paging.Translate.{
  Reached, entry, frame_of, translate, translate_entries, same_page, reached_absent,
  reached_no_page,
}
use pepin_os.Mm.Paging.Kernel.{init_paging-KernelTables, entry-init_paging}
use pepin_os.Mm.Vmm.{vmm_map_page, vmm_unmap_page}
use pepin_os.Mm.Vmm.Space.{IsSpace, translate-Entered}
use pepin_os.Mm.Vmm.Words.{IsMapping, entry-Entered}
use pepin_os.Mm.Vmm.Map.{Mapped, rights, kept_space, map_page_lem}

-- The kernel's directory after `init_paging` and its tables are pages that a valid allocator holds back.
pub init_paging-IsSpace :
    (mem : Memory) (pmm : Pmm) → IsValid pmm → IsSpace (init_paging mem).1 kernel_pd_addr pmm
init_paging-IsSpace mem pmm v =
    let out = (init_paging mem).1 in
    let low : (i : ℕ) → i < 1024 → entry out kernel_pd_addr i % 2 ≡ 1 → i < 4 =
      λ i h p. ground (arith, entry-init_paging mem i h, p) in
    let at : (i : ℕ)
        → i < 1024
        → entry out kernel_pd_addr i % 2 ≡ 1
        → entry out kernel_pd_addr i ≡ 0x20_1000 + 4096 * i + 7 =
      λ i h p. (init_paging-KernelTables mem).directory i (low i h p) in
    record {
      aligned = refl;
      inside = omega arith;
      taken = v.reserved 512 (omega arith);
      tables_taken = λ i h p.
          v.reserved (entry out kernel_pd_addr i / 4096) (omega (arith, at i h p, low i h p));
      tables_apart = λ i h p same. omega (arith, at i h p, same);
      once = λ i j hi hj pi pj same. omega (arith, at i hi pi, at j hj pj, same);
    }

-- There is a table for the page of `virt`, or a page for one, and it lies in the first 16 MB, which the
-- kernel has mapped: a store to another one would be a page fault.
abbrev pub HasTable : Memory → Pmm → ℕ → Type 0
HasTable mem pmm virt =
    ((entry mem kernel_pd_addr (virt / 2 ^ 22) % 2 ≡ 1)
      × (entry mem kernel_pd_addr (virt / 2 ^ 22) < 0x100_0000))
    ⊎ (((alloc_page pmm).0 ≢ 0) × ((alloc_page pmm).0 < 0x100_0000))

-- In an address space of the kernel's directory, with a valid allocator, and with a table for the page of
-- `virt`, or a page for one, below 16 MB, `vmm_map_page` maps the page of `virt` to `phys` and keeps all
-- other translations, the address space and the allocator in order. A new table is not open to user
-- code.
pub vmm_map_page_lem :
    (virt phys flags : ℕ) (mem : Memory) (pmm : Pmm)
    → IsMapping virt phys flags
    → IsSpace mem kernel_pd_addr pmm
    → IsValid pmm
    → HasTable mem pmm virt
    → Mapped kernel_pd_addr virt phys flags
        (rights mem kernel_pd_addr virt 3)
        mem
        (vmm_map_page virt phys flags mem pmm)
unfolding vmm_map_page
vmm_map_page_lem virt phys flags mem pmm m s v there =
    map_page_lem (record { adds = bit_or_present_write; small = omega arith; odd = refl }) m s v
      (elim there [ inl old ↦ inl old.0 | inr new ↦ inr new.0 ])

unmap_present :
    (virt : ℕ) (mem : Memory)
    → entry mem kernel_pd_addr (virt / 2 ^ 22) % 2 ≡ 1
    → vmm_unmap_page virt mem
      ≡ write32 mem
          (frame_of (entry mem kernel_pd_addr (virt / 2 ^ 22)) + 4 * (virt / 2 ^ 12 % 1024))
          0
unfolding vmm_unmap_page
unmap_present virt mem odd =
    let word = entry mem kernel_pd_addr (virt / 2 ^ 22) in
    let here : bit_and word 1 == 0 ≡ false = ground (arith, present_bit word) in
    rw
      (
        here,
        bit_and_page word (read32-lt mem (kernel_pd_addr + 4 * (virt / 2 ^ 22))),
        bit_and_low 10 (virt / 2 ^ 12),
      )
      refl

unmap_absent :
    (virt : ℕ) (mem : Memory)
    → entry mem kernel_pd_addr (virt / 2 ^ 22) % 2 ≡ 0
    → vmm_unmap_page virt mem ≡ mem
unfolding vmm_unmap_page
unmap_absent virt mem even =
    let word = entry mem kernel_pd_addr (virt / 2 ^ 22) in
    let here : bit_and word 1 == 0 ≡ true = ground (arith, present_bit word) in rw here refl

-- In an address space of the kernel's directory, `vmm_unmap_page` makes the page of `virt` fault,
-- keeps all other translations, and the address space in order.
pub vmm_unmap_page_lem :
    (virt : ℕ) (mem : Memory) (pmm : Pmm)
    → virt < 2 ^ 32
    → IsSpace mem kernel_pd_addr pmm
    → let out = vmm_unmap_page virt mem in
      IsSpace out kernel_pd_addr pmm
      × ((v : ℕ)
          → v < 2 ^ 32
          → translate out kernel_pd_addr v
            ≡ (if virt / 2 ^ 12 == v / 2 ^ 12 then none else translate mem kernel_pd_addr v))
vmm_unmap_page_lem virt mem pmm hv s =
    let word = entry mem kernel_pd_addr (virt / 2 ^ 22) in
    elim (Bool-cases (word % 2 == 0)) [
      | inl absent ↦ rw (unmap_absent virt mem (ground arith)) (
        s,
        λ v h. elim (Bool-cases (virt / 2 ^ 12 == v / 2 ^ 12)) [
          | inl same ↦ rw same (
              let d : v / 2 ^ 22 ≡ virt / 2 ^ 22 = ground arith in
              let second = entry mem (frame_of word) (v / 2 ^ 12 % 1024) in
              translate_entries mem kernel_pd_addr v word second (ap (entry mem kernel_pd_addr) d)
                refl
              ∙ reached_absent word v second (ground arith))
          | inr other ↦ rw other refl
        ],
      )
      | inr present ↦
          let odd : word % 2 ≡ 1 = ground arith in
          let e = entry-Entered hv s (frame_of word) 0 (omega arith) odd refl in
          rw (unmap_present virt mem odd) (
            kept_space hv s e (λ i t. t) (s.tables_taken (virt / 2 ^ 22) (omega (arith, hv)) odd),
            λ v h.
                translate-Entered s.aligned hv e v h
                ∙ ap
                    (λ (r : Option Reached).
                      if virt / 2 ^ 12 == v / 2 ^ 12 then r else translate mem kernel_pd_addr v)
                    (reached_no_page word v),
          )
    ]

-- With a table for the page, or a page for one, below 16 MB, mapping an address that faults and unmapping
-- it again gives every address its translation of before: what is left of it is the empty table.
pub vmm_unmap_page-vmm_map_page :
    (virt phys flags : ℕ) (mem : Memory) (pmm : Pmm)
    → IsMapping virt phys flags
    → IsSpace mem kernel_pd_addr pmm
    → IsValid pmm
    → HasTable mem pmm virt
    → translate mem kernel_pd_addr virt ≡ none
    → (v : ℕ) → v < 2 ^ 32
    → translate (vmm_unmap_page virt (vmm_map_page virt phys flags mem pmm).0) kernel_pd_addr v
      ≡ translate mem kernel_pd_addr v
vmm_unmap_page-vmm_map_page virt phys flags mem pmm m s valid there fault v h =
    let mapped = vmm_map_page_lem virt phys flags mem pmm m s valid there in
    let out = vmm_map_page virt phys flags mem pmm in
    (vmm_unmap_page_lem virt out.0 out.1 m.virt32 mapped.space).1 v h
    ∙ (elim (Bool-cases (virt / 2 ^ 12 == v / 2 ^ 12)) [
      | inl same ↦ rw same (sym (same_page mem kernel_pd_addr virt v (ground arith) fault))
      | inr other ↦ rw other (mapped.translation v h ∙ rw other refl)
    ])
