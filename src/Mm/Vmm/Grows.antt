-- ===== src/Mm/Vmm/Grows.antt =====
-- How the directory and the allocator grow when a page is mapped.
use pepin_os.Base.{
  ℕ, ◌+◌, ◌/◌, ◌%◌, ◌^◌, ◌≤◌, ◌<◌, ◌≡◌, refl, ap, ◌∙◌, ◌≢◌, ◌⊎◌, inl, inr, arith, ◌==◌, Bool-cases,
}
use pepin_os.Base.Memory.{Memory}
use pepin_os.Mm.Pmm.{Pmm, alloc_page}
use pepin_os.Mm.Pmm.Bitmap.{used}
use pepin_os.Mm.Pmm.Valid.{IsValid}
use pepin_os.Mm.Pmm.Alloc.{alloc_page_lem}
use pepin_os.Mm.Pmm.Exhaust.{alloc_page_spends}
use pepin_os.Mm.Paging.Translate.{entry, frame_of}
use pepin_os.Mm.Vmm.{map_page}
use pepin_os.Mm.Vmm.Space.{IsSpace}
use pepin_os.Mm.Vmm.Words.{
  AddsFlags, IsMapping, present_lem, present_Entered, absent_lem, absent_Entered,
}
use pepin_os.Mm.Vmm.Map.{entry_cases, new_page}

-- An entry of the directory is an old one or points to a page that was free, no page is given back, and
-- at most one is taken.
pub record Grows (pd : ℕ) (mem : Memory) (pmm : Pmm) (out : Memory × Pmm) : Type 0 where
  pub entries :
      (i : ℕ)
      → i < 1024
      → (entry out.0 pd i ≡ entry mem pd i) ⊎ (used pmm (entry out.0 pd i / 4096) ≡ 0)
  pub still : (i : ℕ) → used pmm i ≡ 1 → used out.1 i ≡ 1
  pub spent : pmm.free_pages ≤ out.1.free_pages + 1

pub map_page-Grows :
    {dir_entry : ℕ → ℕ} {f pd virt phys flags : ℕ} {mem : Memory} {pmm : Pmm}
    → AddsFlags dir_entry f
    → IsMapping virt phys flags
    → IsSpace mem pd pmm
    → IsValid pmm
    → (entry mem pd (virt / 2 ^ 22) % 2 ≡ 1) ⊎ ((alloc_page pmm).0 ≢ 0)
    → Grows pd mem pmm (map_page dir_entry pd virt phys flags mem pmm)
map_page-Grows {dir_entry} {f} {pd} {virt} {phys} {flags} {mem} {pmm} adds m s v there =
    let old = entry mem pd (virt / 2 ^ 22) in
    elim (Bool-cases (old % 2 == 0)) [
      | inl absent ↦
          let even : old % 2 ≡ 0 = ground arith in
          elim (alloc_page_lem pmm v) [
            | inl full ↦
                absurd (elim there [ inl odd ↦ omega (arith, odd, even) | inr ne ↦ ne full.null ])
            | inr (k, took, lo) ↦
                let addr = (alloc_page pmm).0 in
                let page = new_page v took in
                let e = absent_Entered adds m s addr page even in
                let place : (addr + f) / 4096 ≡ addr / 4096 = omega (arith, page, adds.small) in
                rw (absent_lem adds m s addr page even refl) (record {
                  entries = λ i h. elim (entry_cases s.aligned m.virt32 e i h) [
                    | inl (d, new) ↦
                        inr (ap (λ (w : ℕ). used pmm (w / 4096)) new ∙ ap (used pmm) place ∙ page.2)
                    | inr (ne, same) ↦ inl same
                  ];
                  still = (alloc_page_spends pmm v).1;
                  spent = (alloc_page_spends pmm v).0;
                })
          ]
      | inr present ↦
          let odd : old % 2 ≡ 1 = ground arith in
          let e = present_Entered adds m s (frame_of old) odd refl in
          rw (present_lem adds m s odd) (record {
            entries = λ i h. inl (elim (entry_cases s.aligned m.virt32 e i h) [
              | inl (d, new) ↦ new ∙ ap (entry mem pd) d
              | inr (ne, same) ↦ same
            ]);
            still = λ i h. h;
            spent = omega arith;
          })
    ]
