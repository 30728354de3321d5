-- ===== src/Fs/Elf/Program.antt =====
-- Loading all segments of a program.
use pepin_os.Base.{
  ℕ, zero, suc, ◌+◌, ◌-◌, ◌*◌, ◌/◌, ◌%◌, ◌≤◌, ◌<◌, ◌≡◌, refl, ◌≢◌, inl, inr, arith, ◌==◌, true,
  false, if◌then◌else◌, for_range, Bool-cases, add32, mul32,
}
use mathlib.Core.Path.{subst}
use pepin_os.Base.Memory.{Memory}
use pepin_os.Mm.Pmm.{Pmm}
use pepin_os.Mm.Pmm.Valid.{IsValid}
use pepin_os.Mm.Vmm.Space.{IsSpace}
use pepin_os.Fs.Elf.{Phdr, e_phoff, e_phentsize, e_phnum, phdr_at, load_segment, load_segments}
use pepin_os.Fs.Elf.Part.{IsLoadable}
use pepin_os.Fs.Elf.Kept.{Kept, same_Kept, then_Kept, kept_Holds}
use pepin_os.Fs.Elf.Image.{
  pages_of, end_of_pages, Present, OutsideOf, LoadedSegment, load_segment_lem,
}

-- The program header of a number.
abbrev pub header : (ℕ → ℕ) → ℕ → Phdr
header buf i = phdr_at buf (add32 (e_phoff buf) (mul32 i (e_phentsize buf)))

-- The first `k` headers load segments that can be loaded, and no two of them share a page.
pub record IsProgram (buf : ℕ → ℕ) (k : ℕ) : Type 0 where
  pub loadable : (i : ℕ) → i < k → (header buf i).p_type ≡ 1 → IsLoadable (header buf i)
  pub apart :
      (i j : ℕ)
      → i < k
      → j < k
      → i ≢ j
      → (header buf i).p_type ≡ 1
      → (header buf j).p_type ≡ 1
      → (m : ℕ) → m < pages_of (header buf i)
      → OutsideOf (header buf j) ((header buf i).p_vaddr / 4096 + m)

-- A page for each page of the segments of the first `k` headers, and one for its table.
unfoldable pub pages_needed : (ℕ → ℕ) → ℕ → ℕ
pages_needed buf zero = 0
pages_needed buf (suc k) =
    pages_needed buf k + (if (header buf k).p_type == 1 then 2 * pages_of (header buf k) else 0)

-- The page `n` is in none of these segments.
abbrev pub OutsideProgram : (ℕ → ℕ) → ℕ → ℕ → Type 0
OutsideProgram buf k n = (i : ℕ) → i < k → (header buf i).p_type ≡ 1 → OutsideOf (header buf i) n

pub record LoadedProgram (buf : ℕ → ℕ) (pd k : ℕ) (s0 s : Memory × Pmm) : Type 0 where
  pub space : IsSpace s.0 pd s.1
  pub valid : IsValid s.1
  pub present : (i : ℕ) → i < k → (header buf i).p_type ≡ 1 → Present buf (header buf i) pd s
  pub kept : Kept pd (OutsideProgram buf k) s0 s
  pub spent : s0.1.free_pages ≤ s.1.free_pages + pages_needed buf k

pub kept_Present :
    {buf : ℕ → ℕ} {ph : Phdr} {pd : ℕ} {P : ℕ → Type 0} {s0 s : Memory × Pmm}
    → IsLoadable ph
    → Kept pd P s0 s
    → ((m : ℕ) → m < pages_of ph → P (ph.p_vaddr / 4096 + m))
    → Present buf ph pd s0
    → Present buf ph pd s
kept_Present {ph = ph} {P = P} l k out old = record {
  pages = λ i h.
      let vaddr = ph.p_vaddr - ph.p_vaddr % 4096 + 4096 * i in
      let place : ph.p_vaddr / 4096 + i ≡ vaddr / 4096 = omega arith in
      let (frame, holds) = old.pages i h in
      (
        frame,
        kept_Holds vaddr frame k (omega arith) (omega (arith, h, end_of_pages ph l))
            (subst P place (out i h)) holds,
      );
}

module _ (buf : ℕ → ℕ) (pd : ℕ) where
  one_more :
      (k : ℕ)
      → (header buf k).p_type == 1 ≡ true
      → pages_needed buf (suc k) ≡ pages_needed buf k + 2 * pages_of (header buf k)
  unfolding pages_needed
  one_more k load = rw load refl

  room : (n k count : ℕ) → k + suc n ≡ count → pages_needed buf (suc k) ≤ pages_needed buf count
  unfolding pages_needed
  room zero k count e = let same : suc k ≡ count = omega (arith, e) in rw (← same) (omega arith)
  room (suc n) k count e = omega (arith, room n (suc k) count (omega (arith, e)))

  skipped :
      {k : ℕ} {s0 s : Memory × Pmm}
      → (header buf k).p_type == 1 ≡ false
      → LoadedProgram buf pd k s0 s
      → LoadedProgram buf pd (suc k) s0 s
  unfolding pages_needed
  skipped {k} {s0} {s} other l = record {
    space = l.space;
    valid = l.valid;
    present = λ i h p. elim (Bool-cases (i == k)) [
      | inl here ↦ let e : i ≡ k = ground arith in absurd (ground (arith, other, rw e at p))
      | inr before ↦ l.present i (ground (arith, h)) p
    ];
    kept =
        then_Kept (OutsideProgram buf (suc k)) l.kept (same_Kept pd (OutsideProgram buf (suc k)) s)
          (λ n out. (λ i h p. out i (omega (arith, h)) p, out));
    spent = rw other (omega (arith, l.spent));
  }

  added :
      {k count : ℕ} {s0 s : Memory × Pmm}
      → IsProgram buf count
      → k < count
      → (header buf k).p_type == 1 ≡ true
      → LoadedProgram buf pd k s0 s
      → LoadedSegment buf (header buf k) pd s (load_segment buf (header buf k) pd s)
      → LoadedProgram buf pd (suc k) s0 (load_segment buf (header buf k) pd s)
  unfolding pages_needed
  added {k} {count} {s0} {s} q lt load l g =
      let type : (header buf k).p_type ≡ 1 = ground (arith, load) in
      record {
        space = g.space;
        valid = g.valid;
        present = λ i h p. elim (Bool-cases (i == k)) [
          | inl here ↦
              let e : k ≡ i = ground arith in
              subst
                (λ (j : ℕ). Present buf (header buf j) pd (load_segment buf (header buf k) pd s)) e
                g.present
          | inr before ↦
              let le : i < k = ground (arith, h) in
              kept_Present (q.loadable i (omega (arith, le, lt)) p) g.kept
                (q.apart i k (omega (arith, le, lt)) lt (λ e. omega (arith, e, le)) p type)
                (l.present i le p)
        ];
        kept =
            then_Kept (OutsideProgram buf (suc k)) l.kept g.kept
              (λ n out. (λ i h p. out i (omega (arith, h)) p, out k (omega arith) type));
        spent = rw load (omega (arith, l.spent, g.spent));
      }

  load_headers :
      (n k count : ℕ) (s0 s : Memory × Pmm)
      → k + n ≡ count
      → IsProgram buf count
      → pages_needed buf count ≤ s0.1.free_pages
      → LoadedProgram buf pd k s0 s
      → LoadedProgram buf pd count s0 (
          for_range n k
            (λ i t. if (header buf i).p_type == 1 then load_segment buf (header buf i) pd t else t)
            s)
  load_headers zero k count s0 s e q left l =
      subst (λ (j : ℕ). LoadedProgram buf pd j s0 s) (omega (arith, e)) l
  load_headers (suc n) k count s0 s e q left l = elim (Bool-cases ((header buf k).p_type == 1)) [
    | inl load ↦
        let g =
          load_segment_lem buf (header buf k) pd s
            (q.loadable k (omega (arith, e)) (ground (arith, load))) l.space l.valid
            (omega (arith, left, l.spent, room n k count e, one_more k load)) in
        rw load (
          load_headers n (suc k) count s0 (load_segment buf (header buf k) pd s) (omega (arith, e))
            q left (added q (omega (arith, e)) load l g))
    | inr other ↦
        rw other (load_headers n (suc k) count s0 s (omega (arith, e)) q left (skipped other l))
  ]

  -- In an address space in order, with a valid allocator that has enough free pages, loading the
  -- segments of a program puts them all there and keeps everything else.
  pub load_segments_lem :
      (s : Memory × Pmm)
      → IsSpace s.0 pd s.1
      → IsValid s.1
      → IsProgram buf (e_phnum buf)
      → pages_needed buf (e_phnum buf) ≤ s.1.free_pages
      → LoadedProgram buf pd (e_phnum buf) s (load_segments buf pd s)
  unfolding load_segments
  load_segments_lem s space valid q left =
      load_headers (e_phnum buf) 0 (e_phnum buf) s s (omega arith) q left (record {
        space = space;
        valid = valid;
        present = λ i h p. elim h [ ];
        kept = same_Kept pd (OutsideProgram buf 0) s;
        spent = omega arith;
      })
