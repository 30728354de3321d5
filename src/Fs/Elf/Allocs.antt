-- ===== src/Fs/Elf/Allocs.antt =====
-- The pages that `load` takes are taken by allocations only.
use pepin_os.Base.{
  ℕ, zero, suc, ◌+◌, ◌-◌, ◌*◌, ◌/◌, ◌==◌, if◌then◌else◌, bit_and, for_range, inl, inr, Bool-cases,
  add32, mul32, List,
}
use pepin_os.Base.Bits.{not32}
use pepin_os.Base.Memory.{Memory}
use pepin_os.Mm.Paging.{present_write_user}
use pepin_os.Mm.Pmm.{Pmm}
use pepin_os.Mm.Pmm.Low.{Allocs, here, more}
use pepin_os.Mm.Vmm.Allocs.{map_page-Allocs}
use pepin_os.Fs.Elf.{
  Phdr, Loader, e_phoff, e_phentsize, e_phnum, phdr_at, proc_alloc_pd, proc_map_page, load_page,
  load_segment, load_segments, map_stack, load,
}

for_range-keeps :
    {A : Type 0} (P : A → Type 0) (body : ℕ → A → A)
    → ((k : ℕ) (a : A) → P a → P (body k a))
    → (n i : ℕ) (a : A) → P a
    → P (for_range n i body a)
for_range-keeps P body step zero i a h = h
for_range-keeps P body step (suc n) i a h =
    for_range-keeps P body step n (suc i) (body i a) (step i a h)

module _ (p : Pmm) (buf : ℕ → ℕ) (pd : ℕ) where
  Taken : Memory × Pmm → Type 0
  Taken s = Allocs p s.1

  load_page-Taken :
      (ph : Phdr) (vaddr : ℕ) (s : Memory × Pmm) → Taken s → Taken (load_page buf ph pd vaddr s)
  unfolding Taken load_page proc_map_page
  load_page-Taken ph vaddr s a = map_page-Allocs present_write_user pd vaddr _ _ _ (more a)

  load_segment-Taken : (ph : Phdr) (s : Memory × Pmm) → Taken s → Taken (load_segment buf ph pd s)
  unfolding load_segment
  load_segment-Taken ph s a =
      let vbase = bit_and ph.p_vaddr (not32 0xFFF) in
      let vend = bit_and (add32 (add32 ph.p_vaddr ph.p_memsz) 0xFFF) (not32 0xFFF) in
      for_range-keeps Taken (λ k. load_page buf ph pd (vbase + 4096 * k))
        (λ k t h. load_page-Taken ph (vbase + 4096 * k) t h) ((vend - vbase) / 4096) 0 s a

  load_segments-Taken : (s : Memory × Pmm) → Taken s → Taken (load_segments buf pd s)
  unfolding load_segments
  load_segments-Taken s a =
      let ph : ℕ → Phdr = λ k. phdr_at buf (add32 (e_phoff buf) (mul32 k (e_phentsize buf))) in
      for_range-keeps Taken (λ k t. if (ph k).p_type == 1 then load_segment buf (ph k) pd t else t)
        (λ k t h. elim (Bool-cases ((ph k).p_type == 1)) [
          | inl loaded ↦ rw loaded (load_segment-Taken (ph k) t h)
          | inr other ↦ rw other h
        ])
        (e_phnum buf) 0 s a

  map_stack-Taken : (s : Memory × Pmm) → Taken s → Taken (map_stack pd s)
  unfolding Taken map_stack proc_map_page
  map_stack-Taken s a = map_page-Allocs present_write_user pd _ _ _ _ (more a)

pub load-Allocs : (name : List ℕ) (l : Loader) → Allocs l.pmm (load name l).pmm
unfolding load proc_alloc_pd Taken
load-Allocs name l =
    let pd = proc_alloc_pd l.mem l.pmm in
    let s = load_segments l.elf_buf pd.0 (pd.1, pd.2) in
    more (
      map_stack-Taken l.pmm l.elf_buf pd.0 s
        (load_segments-Taken l.pmm l.elf_buf pd.0 (pd.1, pd.2) (more here)))
