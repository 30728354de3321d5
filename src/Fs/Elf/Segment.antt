-- ===== src/Fs/Elf/Segment.antt =====
-- Loading a whole segment.
use pepin_os.Base.{
  ℕ, zero, suc, ◌+◌, ◌*◌, ◌/◌, ◌%◌, ◌^◌, ◌≤◌, ◌<◌, ◌≡◌, ◌≢◌, inl, inr, arith, ◌==◌, for_range,
  Bool-cases,
}
use mathlib.Core.Path.{subst}
use pepin_os.Base.Memory.{Memory}
use pepin_os.Mm.Pmm.{Pmm, alloc_page}
use pepin_os.Mm.Pmm.Valid.{IsValid}
use pepin_os.Mm.Pmm.Exhaust.{alloc_page_left}
use pepin_os.Mm.Vmm.Space.{IsSpace}
use pepin_os.Fs.Elf.{Phdr, load_page}
use pepin_os.Fs.Elf.Page.{load_page_lem}
use pepin_os.Fs.Elf.Kept.{
  Kept, same_Kept, then_Kept, Holds, kept_Holds, segment_byte, loaded_Holds, page_Kept,
}

-- The pages from `first` on, `k` of them, leave the page `n` out.
abbrev pub Outside : (first k n : ℕ) → Type 0
Outside first k n = (i : ℕ) → i < k → n ≢ first + i

-- The first `k` pages from `vbase` on are loaded, over the state `s0`.
pub record Loaded (buf : ℕ → ℕ) (ph : Phdr) (pd vbase k : ℕ) (s0 s : Memory × Pmm) : Type 0 where
  pub space : IsSpace s.0 pd s.1
  pub valid : IsValid s.1
  pub pages :
      (i : ℕ)
      → i < k
      → (frame : ℕ) × Holds (segment_byte buf ph (vbase + 4096 * i)) pd (vbase + 4096 * i) frame s
  pub kept : Kept pd (Outside (vbase / 4096) k) s0 s
  pub spent : s0.1.free_pages ≤ s.1.free_pages + 2 * k

pub none_Loaded :
    (buf : ℕ → ℕ) (ph : Phdr) (pd vbase : ℕ) (s : Memory × Pmm)
    → IsSpace s.0 pd s.1
    → IsValid s.1
    → Loaded buf ph pd vbase 0 s s
none_Loaded buf ph pd vbase s space valid = record {
  space = space;
  valid = valid;
  pages = λ i h. elim h [ ];
  kept = same_Kept pd (Outside (vbase / 4096) 0) s;
  spent = omega arith;
}

next_Loaded :
    {buf : ℕ → ℕ} {ph : Phdr} {pd vbase k : ℕ} {s0 : Memory × Pmm} (s : Memory × Pmm)
    → vbase % 4096 ≡ 0
    → vbase + 4096 * suc k ≤ 2 ^ 32
    → 2 ≤ s.1.free_pages
    → Loaded buf ph pd vbase k s0 s
    → Loaded buf ph pd vbase (suc k) s0 (load_page buf ph pd (vbase + 4096 * k) s)
next_Loaded {buf} {ph} {pd} {vbase} {k} {s0} s ha fits left l =
    let vaddr = vbase + 4096 * k in
    let first = alloc_page_left s.1 l.valid (omega (arith, left)) in
    let second = alloc_page_left (alloc_page s.1).1 first.1 (omega (arith, left, first.2)) in
    let page =
      load_page_lem buf ph pd vaddr s.0 s.1 (omega (arith, fits)) l.space l.valid first.0
        (inr second.0) in
    let kept = page_Kept (omega (arith, ha)) (omega (arith, fits)) l.space page in
    record {
      space = page.mapped.space;
      valid = page.mapped.valid;
      pages = λ i h. elim (Bool-cases (i == k)) [
        | inl here ↦
            let e : k ≡ i = ground arith in
            (
              (alloc_page s.1).0,
              subst
                  (λ (j : ℕ).
                    Holds (segment_byte buf ph (vbase + 4096 * j)) pd (vbase + 4096 * j)
                      (alloc_page s.1).0 (load_page buf ph pd vaddr s))
                  e (loaded_Holds (omega (arith, ha)) (omega (arith, fits)) l.space page),
            )
        | inr before ↦
            let before_k : i < k = ground (arith, h) in
            let (frame, old) = l.pages i before_k in
            (
              frame,
              kept_Holds (vbase + 4096 * i) frame kept (omega (arith, ha)) (omega (arith, fits))
                  (λ e. omega (arith, e, before_k, ha)) old,
            )
      ];
      kept = then_Kept (Outside (vbase / 4096) (suc k)) l.kept kept (λ n out.
          (λ i h. out i (omega (arith, h)), λ e. out k (omega arith) (omega (arith, e, ha))));
      spent = omega (arith, l.spent, page.spent);
    }

pub load_pages :
    (buf : ℕ → ℕ) (ph : Phdr) (pd vbase n k : ℕ) (s0 s : Memory × Pmm)
    → vbase % 4096 ≡ 0
    → vbase + 4096 * (k + n) ≤ 2 ^ 32
    → 2 * (k + n) ≤ s0.1.free_pages
    → Loaded buf ph pd vbase k s0 s
    → Loaded buf ph pd vbase
        (k + n)
        s0
        (for_range n k (λ i. load_page buf ph pd (vbase + 4096 * i)) s)
load_pages buf ph pd vbase zero k s0 s ha fits left l =
    subst (λ (j : ℕ). Loaded buf ph pd vbase j s0 s) (omega arith) l
load_pages buf ph pd vbase (suc n) k s0 s ha fits left l =
    let out = load_page buf ph pd (vbase + 4096 * k) s in
    let next = next_Loaded s ha (omega (arith, fits)) (omega (arith, left, l.spent)) l in
    subst
      (λ (j : ℕ).
        Loaded buf ph pd vbase j s0
          (for_range n (suc k) (λ i. load_page buf ph pd (vbase + 4096 * i)) out))
      (omega arith)
      (load_pages buf ph pd vbase n (suc k) s0 out ha (omega (arith, fits)) (omega (arith, left))
        next)
