-- ===== src/Mm/Vmm/Tests.antt =====
-- Mapping at concrete inputs: the kernel's directory as `init_paging` leaves it, and a machine with
-- two pages above the first 4 MB.
use pepin_os.Base.{◌≡◌, refl, inl, inr, arith, none}
use pepin_os.Mm.Pmm.{Pmm, init}
use pepin_os.Mm.Pmm.Bitmap.{used}
use pepin_os.Mm.Pmm.Valid.{IsValid, init_lem}
use pepin_os.Mm.Pmm.Alloc.{alloc_page_lem}
use pepin_os.Mm.Paging.{init_paging, kernel_pd_addr}
use pepin_os.Base.Memory.{Memory}
use pepin_os.Mm.Paging.Translate.{translate, translate_absent}
use pepin_os.Mm.Paging.Kernel.{entry-init_paging}
use pepin_os.Mm.Vmm.{vmm_map_page, vmm_unmap_page}
use pepin_os.Mm.Vmm.Space.{IsSpace}
use pepin_os.Mm.Vmm.Words.{IsMapping}
use pepin_os.Mm.Vmm.Map.{Mapped, rights}
use pepin_os.Mm.Vmm.Kernel.{
  HasTable, init_paging-IsSpace, vmm_map_page_lem, vmm_unmap_page-vmm_map_page,
}

abbrev paged : Memory
paged = (init_paging (λ _. 0)).1

abbrev zeroed : Pmm
zeroed = record { bitmap = λ _. 0; total_pages = 0; free_pages = 0 }

abbrev two_pages : Pmm
two_pages = init 0x40_2000 zeroed

two_pages-IsValid : IsValid two_pages
two_pages-IsValid = (init_lem 0x40_2000 zeroed).0

-- A page 3 GB up for a frame, PAGE_PRESENT | PAGE_WRITE.
high_page : IsMapping 0xC000_5000 0x80_0000 3
high_page = record {
  virt32 = omega arith;
  frame = refl;
  phys32 = omega arith;
  small = omega arith;
  present = refl;
}

has_page : HasTable paged two_pages 0xC000_5000
has_page =
    let i = init_lem 0x40_2000 zeroed in
    elim (alloc_page_lem two_pages two_pages-IsValid) [
      | inl full ↦
          let free : used two_pages 1024 ≡ 0 = i.3 1024 (omega arith) in
          absurd (omega (arith, free, full.taken 1024 (omega (arith, i.1))))
      | inr (k, t, lo) ↦ inr (λ e. omega (arith, t.at, lo, e), omega (arith, t.at, t.inside, i.1))
    ]

paged-IsSpace : IsSpace paged kernel_pd_addr two_pages
paged-IsSpace = init_paging-IsSpace (λ _. 0) two_pages two_pages-IsValid

vmm_map_page_lem_example :
    Mapped kernel_pd_addr 0xC000_5000 0x80_0000 3
      (rights paged kernel_pd_addr 0xC000_5000 3)
      paged
      (vmm_map_page 0xC000_5000 0x80_0000 3 paged two_pages)
vmm_map_page_lem_example =
    vmm_map_page_lem 0xC000_5000 0x80_0000 3 paged two_pages high_page paged-IsSpace
      two_pages-IsValid has_page

high_fault : translate paged kernel_pd_addr 0xC000_5000 ≡ none
high_fault =
    translate_absent paged kernel_pd_addr 0xC000_5000 (entry-init_paging (λ _. 0) 768 (omega arith))

vmm_unmap_page-vmm_map_page_example :
    translate
      (vmm_unmap_page 0xC000_5000 (vmm_map_page 0xC000_5000 0x80_0000 3 paged two_pages).0)
      kernel_pd_addr
      0xC000_5123
    ≡ translate paged kernel_pd_addr 0xC000_5123
vmm_unmap_page-vmm_map_page_example =
    vmm_unmap_page-vmm_map_page 0xC000_5000 0x80_0000 3 paged two_pages high_page paged-IsSpace
      two_pages-IsValid has_page high_fault 0xC000_5123 (omega arith)
