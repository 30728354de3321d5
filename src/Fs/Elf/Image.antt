-- ===== src/Fs/Elf/Image.antt =====
-- What a program finds at the addresses of a segment.
use pepin_os.Base.{
  ℕ, ◌+◌, ◌-◌, ◌*◌, ◌/◌, ◌%◌, ◌^◌, ◌≤◌, ◌<◌, ◌≡◌, refl, sym, ap, ◌∙◌, inl, inr, arith, ltb, some,
  if◌then◌else◌, for_range, Bool-cases, add32,
}
use mathlib.Core.Path.{subst}
use pepin_os.Base.Bits.Masks.{bit_and_page}
use pepin_os.Base.Memory.{Memory}
use pepin_os.Mm.Pmm.{Pmm}
use pepin_os.Mm.Pmm.Valid.{IsValid}
use pepin_os.Mm.Paging.Translate.{translate}
use pepin_os.Mm.Vmm.Space.{IsSpace}
use pepin_os.Fs.Elf.{Phdr, load_page, load_segment}
use pepin_os.Fs.Elf.Part.{IsLoadable, same_test, same_index}
use pepin_os.Fs.Elf.Kept.{place_of, segment_byte, Kept, Holds}
use pepin_os.Fs.Elf.Segment.{Outside, none_Loaded, Loaded, load_pages}

-- The number of its pages.
unfoldable pub pages_of : Phdr → ℕ
pages_of ph = (ph.p_vaddr + ph.p_memsz + 4095) / 4096 - ph.p_vaddr / 4096

-- A program that reads the address `a` reads the byte `c`.
pub record Reads (mem : Memory) (pd a c : ℕ) : Type 0 where
  pub phys : ℕ
  pub at : place_of (translate mem pd a) ≡ some phys
  pub byte : mem phys ≡ c

module _ (buf : ℕ → ℕ) (ph : Phdr) (l : IsLoadable ph) where
  segment_byte_lem :
      (t o : ℕ)
      → o < 4096
      → ph.p_vaddr ≤ t + o
      → segment_byte buf ph t o ≡ (
          if ltb (t + o - ph.p_vaddr) ph.p_filesz
          then buf (ph.p_offset + (t + o - ph.p_vaddr))
          else 0)
  unfolding segment_byte
  segment_byte_lem t o h lo =
      rw (same_test ph l t o h lo) (elim (Bool-cases (ltb (t + o - ph.p_vaddr) ph.p_filesz)) [
        | inl there ↦ rw there (ap buf (same_index ph l t o h lo (ground arith)))
        | inr behind ↦ rw behind refl
      ])

  load_segment_loop :
      (pd : ℕ) (s : Memory × Pmm)
      → load_segment buf ph pd s
        ≡ for_range
            (pages_of ph)
            0
            (λ i. load_page buf ph pd (ph.p_vaddr - ph.p_vaddr % 4096 + 4096 * i))
            s
  unfolding load_segment pages_of
  load_segment_loop pd s =
      let fits = l.fits in
      let end : add32 (add32 ph.p_vaddr ph.p_memsz) 0xFFF ≡ ph.p_vaddr + ph.p_memsz + 4095 =
        omega (arith, fits) in
      let count : (ph.p_vaddr
              + ph.p_memsz
              + 4095
              - (ph.p_vaddr + ph.p_memsz + 4095) % 4096
              - (ph.p_vaddr - ph.p_vaddr % 4096))
            / 4096
          ≡ (ph.p_vaddr + ph.p_memsz + 4095) / 4096 - ph.p_vaddr / 4096 =
        omega arith in
      rw
        (
          end,
          bit_and_page (ph.p_vaddr + ph.p_memsz + 4095) fits,
          bit_and_page ph.p_vaddr (omega (arith, fits)),
          count,
        )
        refl

pub end_of_pages :
    (ph : Phdr) → IsLoadable ph → ph.p_vaddr - ph.p_vaddr % 4096 + 4096 * pages_of ph ≤ 2 ^ 32
unfolding pages_of
end_of_pages ph l = omega (arith, l.fits)

page_within :
    (ph : Phdr) (a : ℕ)
    → ph.p_vaddr ≤ a
    → a < ph.p_vaddr + ph.p_memsz
    → a / 4096 - ph.p_vaddr / 4096 < pages_of ph
unfolding pages_of
page_within ph a lo hi = omega (arith, lo, hi)

-- The pages of a segment, with its bytes.
pub record Present (buf : ℕ → ℕ) (ph : Phdr) (pd : ℕ) (s : Memory × Pmm) : Type 0 where
  pub pages :
      (i : ℕ)
      → i < pages_of ph
      → let vaddr = ph.p_vaddr - ph.p_vaddr % 4096 + 4096 * i in
        (frame : ℕ) × Holds (segment_byte buf ph vaddr) pd vaddr frame s

-- What a program reads in a segment that is present: its byte of the file, or 0 behind its part.
pub byte_of_segment :
    {buf : ℕ → ℕ} {ph : Phdr} {pd : ℕ} {s : Memory × Pmm}
    → IsLoadable ph
    → Present buf ph pd s
    → (a : ℕ) → ph.p_vaddr ≤ a
    → a < ph.p_vaddr + ph.p_memsz
    → Reads s.0 pd a
        (if ltb (a - ph.p_vaddr) ph.p_filesz then buf (ph.p_offset + (a - ph.p_vaddr)) else 0)
byte_of_segment {buf} {ph} {pd} {s} l all a lo hi =
    let i = a / 4096 - ph.p_vaddr / 4096 in
    let t = ph.p_vaddr - ph.p_vaddr % 4096 + 4096 * i in
    let o = a % 4096 in
    let e : t + o ≡ a = omega (arith, lo) in
    let small : o < 4096 = omega arith in
    let (frame, h) = all.pages i (page_within ph a lo hi) in
    record {
      phys = frame + o;
      at = ap (λ (x : ℕ). place_of (translate s.0 pd x)) (sym e) ∙ h.at o small;
      byte =
          h.bytes o small
          ∙ segment_byte_lem buf ph l t o small (omega (arith, e, lo))
          ∙ ap
              (λ (x : ℕ).
                if ltb (x - ph.p_vaddr) ph.p_filesz
                then buf (ph.p_offset + (x - ph.p_vaddr))
                else 0)
              e;
    }

-- The page `n` belongs to no address of the segment.
abbrev pub OutsideOf : Phdr → ℕ → Type 0
OutsideOf ph n = Outside (ph.p_vaddr / 4096) (pages_of ph) n

pub record LoadedSegment (buf : ℕ → ℕ) (ph : Phdr) (pd : ℕ) (s0 s : Memory × Pmm) : Type 0 where
  pub space : IsSpace s.0 pd s.1
  pub valid : IsValid s.1
  pub present : Present buf ph pd s
  pub kept : Kept pd (OutsideOf ph) s0 s
  pub spent : s0.1.free_pages ≤ s.1.free_pages + 2 * pages_of ph

-- In an address space in order, with a valid allocator that has two free pages for each page of
-- the segment, `load_segment` loads a segment that can be loaded, and keeps everything else.
pub load_segment_lem :
    (buf : ℕ → ℕ) (ph : Phdr) (pd : ℕ) (s : Memory × Pmm)
    → IsLoadable ph
    → IsSpace s.0 pd s.1
    → IsValid s.1
    → 2 * pages_of ph ≤ s.1.free_pages
    → LoadedSegment buf ph pd s (load_segment buf ph pd s)
load_segment_lem buf ph pd s l space valid left =
    let vbase = ph.p_vaddr - ph.p_vaddr % 4096 in
    let n = pages_of ph in
    let out = for_range n 0 (λ i. load_page buf ph pd (vbase + 4096 * i)) s in
    let done : Loaded buf ph pd vbase n s out =
      subst (λ (k : ℕ). Loaded buf ph pd vbase k s out) (omega arith)
        (load_pages buf ph pd vbase n 0 s s (omega arith) (omega (arith, end_of_pages ph l))
          (omega (arith, left)) (none_Loaded buf ph pd vbase s space valid)) in
    let first : vbase / 4096 ≡ ph.p_vaddr / 4096 = omega arith in
    rw (load_segment_loop buf ph l pd s) (record {
      space = done.space;
      valid = done.valid;
      present = record { pages = done.pages };
      kept = subst (λ (x : ℕ). Kept pd (Outside x n) s out) first done.kept;
      spent = done.spent;
    })
