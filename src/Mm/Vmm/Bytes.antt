-- ===== src/Mm/Vmm/Bytes.antt =====
-- The bytes that mapping a page leaves as they are.
use pepin_os.Base.{
  ℕ, ◌+◌, ◌*◌, ◌/◌, ◌%◌, ◌^◌, ◌≡◌, refl, ap, ◌∙◌, ◌≢◌, ◌⊎◌, inl, inr, arith, ◌==◌, ltb, Bool-cases,
}
use pepin_os.Base.Memory.{Memory, write32, write32-byte, fill32_outside}
use pepin_os.Mm.Pmm.{Pmm, alloc_page}
use pepin_os.Mm.Pmm.Bitmap.{used}
use pepin_os.Mm.Pmm.Valid.{IsValid}
use pepin_os.Mm.Pmm.Alloc.{alloc_page_lem}
use pepin_os.Mm.Paging.Translate.{entry, frame_of}
use pepin_os.Mm.Vmm.{clear_table, map_page}
use pepin_os.Mm.Vmm.Space.{IsSpace}
use pepin_os.Mm.Vmm.Words.{AddsFlags, IsMapping, with_table, present_lem, absent_lem}
use pepin_os.Mm.Vmm.Map.{new_page}

-- A word lies within its page.
off_word :
    (m : Memory) (page at w b : ℕ)
    → at / 4096 ≡ page
    → at % 4 ≡ 0
    → b / 4096 ≢ page
    → write32 m at w b ≡ m b
off_word m page at w b h a ne = write32-byte m at w b ∙ ground (arith, h, a, ne)

clear_table-byte :
    (at : ℕ) (m : Memory) (b : ℕ) → at % 4096 ≡ 0 → b / 4096 ≢ at / 4096 → clear_table at m b ≡ m b
unfolding clear_table
clear_table-byte at m b h ne =
    fill32_outside 1024 0 at (λ _. 0) m b
      (elim (Bool-cases (ltb b at)) [
        | inl before ↦ inl (ground arith)
        | inr behind ↦ inr (ground (arith, h, ne))
      ])

-- The bytes of a taken page that is neither the directory nor the table that the page of `virt` has.
pub map_page-byte :
    {dir_entry : ℕ → ℕ} {f pd virt phys flags : ℕ} {mem : Memory} {pmm : Pmm}
    → AddsFlags dir_entry f
    → IsMapping virt phys flags
    → IsSpace mem pd pmm
    → IsValid pmm
    → (entry mem pd (virt / 2 ^ 22) % 2 ≡ 1) ⊎ ((alloc_page pmm).0 ≢ 0)
    → (b : ℕ) → used pmm (b / 4096) ≡ 1
    → b / 4096 ≢ pd / 4096
    → (entry mem pd (virt / 2 ^ 22) % 2 ≡ 1 → b / 4096 ≢ entry mem pd (virt / 2 ^ 22) / 4096)
    → (map_page dir_entry pd virt phys flags mem pmm).0 b ≡ mem b
unfolding with_table
map_page-byte {dir_entry} {f} {pd} {virt} {phys} {flags} {mem} {pmm} adds m s v there b t np nt =
    let old = entry mem pd (virt / 2 ^ 22) in
    let slot = pd + 4 * (virt / 2 ^ 22) in
    elim (Bool-cases (old % 2 == 0)) [
      | inl absent ↦
          let even : old % 2 ≡ 0 = ground arith in
          elim (alloc_page_lem pmm v) [
            | inl full ↦
                absurd (elim there [ inl odd ↦ omega (arith, odd, even) | inr ne ↦ ne full.null ])
            | inr (k, took, lo) ↦
                let addr = (alloc_page pmm).0 in
                let page = new_page v took in
                let off : b / 4096 ≢ addr / 4096 =
                  λ same. omega (arith, t, page, ap (used pmm) same) in
                ap (λ (o : Memory × Pmm). o.0 b) (absent_lem adds m s addr page even refl)
                ∙ off_word (with_table adds m s addr page) (addr / 4096)
                    (addr + 4 * (virt / 2 ^ 12 % 1024)) (phys + flags) b (omega (arith, page))
                    (omega (arith, page)) off
                ∙ off_word (clear_table addr mem) (pd / 4096) slot (addr + f) b
                    (omega (arith, s.aligned, m.virt32)) (omega (arith, s.aligned)) np
                ∙ clear_table-byte addr mem b page.0 off
          ]
      | inr present ↦
          let odd : old % 2 ≡ 1 = ground arith in
          ap (λ (o : Memory × Pmm). o.0 b) (present_lem adds m s odd)
          ∙ off_word mem (old / 4096) (frame_of old + 4 * (virt / 2 ^ 12 % 1024)) (phys + flags) b
              (omega arith) (omega arith) (nt odd)
    ]
