-- ===== src/Fs/Elf/Page.antt =====
-- Loading one page of a segment.
use pepin_os.Base.{
  ℕ, ◌+◌, ◌-◌, ◌/◌, ◌%◌, ◌^◌, ◌≤◌, ◌<◌, ◌≡◌, refl, sym, ap, ◌∙◌, ◌≢◌, ◌⊎◌, inl, inr, arith, ltb,
  leb, ◌&&◌, if◌then◌else◌, add32,
}
use pepin_os.Base.Bits.Masks.{bit_or_present_write_user}
use pepin_os.Base.Memory.{Memory}
use pepin_os.Mm.Pmm.{Pmm, alloc_page}
use pepin_os.Mm.Pmm.Bitmap.{used}
use pepin_os.Mm.Pmm.Valid.{IsValid}
use pepin_os.Mm.Pmm.Alloc.{Took, alloc_page_lem}
use pepin_os.Mm.Pmm.Keeps.{Took-IsValid}
use pepin_os.Mm.Paging.{present_write_user}
use pepin_os.Mm.Paging.Translate.{entry}
use pepin_os.Mm.Vmm.Space.{IsSpace}
use pepin_os.Mm.Vmm.Words.{AddsFlags, IsMapping}
use pepin_os.Mm.Vmm.Map.{Mapped, rights, new_page, map_page_lem}
use pepin_os.Mm.Pmm.Exhaust.{alloc_page_spends}
use pepin_os.Mm.Vmm.Grows.{Grows, map_page-Grows}
use pepin_os.Mm.Vmm.Bytes.{map_page-byte}
use pepin_os.Fs.Elf.{Phdr, file_part, zero_page, copy_bytes, proc_map_page, load_page}
use pepin_os.Fs.Elf.Fill.{file_part-le, filled_byte}
use pepin_os.Fs.Elf.Apart.{Keeps, entry-Keeps, IsSpace-Keeps, translate-Keeps}

-- What one round leaves: the page of `vaddr` is translated to a page that was free, which holds its
-- part of the file and zeroes behind it, all other translations and the taken pages that are not
-- tables are as they were, and directory and allocator are in order. The directory points to no
-- other page that was taken, and at most two pages are.
pub record LoadedPage (buf : ℕ → ℕ) (ph : Phdr) (pd vaddr : ℕ) (mem : Memory) (pmm : Pmm)
    (out : Memory × Pmm) : Type 0 where
  pub aligned : (alloc_page pmm).0 % 4096 ≡ 0
  pub was_free : used pmm ((alloc_page pmm).0 / 4096) ≡ 0
  pub mapped : Mapped pd vaddr (alloc_page pmm).0 7 (rights mem pd vaddr 7) mem out
  pub bytes :
      (j : ℕ)
      → j < 4096
      → out.0 ((alloc_page pmm).0 + j)
        ≡ (if ltb j (file_part ph vaddr).0 then buf (add32 (file_part ph vaddr).1 j) else 0)
  pub others :
      (b : ℕ)
      → used pmm (b / 4096) ≡ 1
      → b / 4096 ≢ pd / 4096
      → (entry mem pd (vaddr / 2 ^ 22) % 2 ≡ 1 → b / 4096 ≢ entry mem pd (vaddr / 2 ^ 22) / 4096)
      → out.0 b ≡ mem b
  pub now_taken : used out.1 ((alloc_page pmm).0 / 4096) ≡ 1
  pub entries :
      (i : ℕ)
      → i < 1024
      → (entry out.0 pd i ≡ entry mem pd i)
        ⊎ ((used pmm (entry out.0 pd i / 4096) ≡ 0)
            × (entry out.0 pd i / 4096 ≢ (alloc_page pmm).0 / 4096))
  pub still : (i : ℕ) → used pmm i ≡ 1 → used out.1 i ≡ 1
  pub spent : pmm.free_pages ≤ out.1.free_pages + 2

user_flags : AddsFlags present_write_user 7
user_flags = record { adds = bit_or_present_write_user; small = omega arith; odd = refl }

module _ (buf : ℕ → ℕ) (ph : Phdr) {pd vaddr : ℕ} {mem : Memory} {pmm : Pmm} {k : ℕ}
    (virt32 : vaddr < 2 ^ 32) (s : IsSpace mem pd pmm) (v : IsValid pmm)
    (t : Took pmm k (alloc_page pmm).0 (alloc_page pmm).1)
    (there : (entry mem pd (vaddr / 2 ^ 22) % 2 ≡ 1)
      ⊎ ((alloc_page (alloc_page pmm).1).0 ≢ 0)) where
  abbrev at : ℕ
  at = (alloc_page pmm).0

  abbrev filled : Memory
  filled = copy_bytes at (file_part ph vaddr).0 (file_part ph vaddr).1 buf (zero_page at mem)

  place : (at % 4096 ≡ 0) × (at + 4096 ≤ 2 ^ 32) × (used pmm (at / 4096) ≡ 0)
  place = new_page v t

  in_filled :
      (x : ℕ)
      → filled x ≡ (
          if leb at x && ltb x (at + 4096)
          then (if ltb (x - at) (file_part ph vaddr).0
              then buf (add32 (file_part ph vaddr).1 (x - at))
              else 0)
          else mem x)
  in_filled x =
      filled_byte at (file_part ph vaddr).0 (file_part ph vaddr).1 buf mem x (file_part-le ph vaddr)

  kept : Keeps pmm mem filled
  kept = record {
    same = λ b u.
        let ne : b / 4096 ≢ at / 4096 = λ e. omega (arith, u, place, ap (used pmm) e) in
        in_filled b ∙ ground (arith, place, ne);
  }

  more : (i : ℕ) → used pmm i ≡ 1 → used (alloc_page pmm).1 i ≡ 1
  more i h = t.now i ∙ ground (arith, h)

  mapping : IsMapping vaddr at 7
  mapping = record {
    virt32 = virt32;
    frame = place.0;
    phys32 = omega (arith, place);
    small = omega arith;
    present = refl;
  }

  filled_space : IsSpace filled pd (alloc_page pmm).1
  filled_space = IsSpace-Keeps s kept (alloc_page pmm).1 more

  slot : entry filled pd (vaddr / 2 ^ 22) ≡ entry mem pd (vaddr / 2 ^ 22)
  slot = entry-Keeps s kept (vaddr / 2 ^ 22) (omega (arith, virt32))

  there_still : (entry filled pd (vaddr / 2 ^ 22) % 2 ≡ 1) ⊎ ((alloc_page (alloc_page pmm).1).0 ≢ 0)
  there_still = rw slot there

  loaded_mapping :
      Mapped pd vaddr at 7 (rights mem pd vaddr 7) mem (load_page buf ph pd vaddr (mem, pmm))
  unfolding load_page proc_map_page
  loaded_mapping =
      let m = map_page_lem user_flags mapping filled_space (Took-IsValid v t) there_still in
      record {
        space = m.space;
        valid = m.valid;
        translation = λ w h. m.translation w h ∙ rw (slot, translate-Keeps s kept w h) refl;
      }

  untouched :
      (b : ℕ)
      → used (alloc_page pmm).1 (b / 4096) ≡ 1
      → b / 4096 ≢ pd / 4096
      → (entry mem pd (vaddr / 2 ^ 22) % 2 ≡ 1 → b / 4096 ≢ entry mem pd (vaddr / 2 ^ 22) / 4096)
      → (load_page buf ph pd vaddr (mem, pmm)).0 b ≡ filled b
  unfolding load_page proc_map_page
  untouched b u np nt =
      map_page-byte user_flags mapping filled_space (Took-IsValid v t) there_still b u np
        (rw slot nt)

  own_bytes :
      (j : ℕ)
      → j < 4096
      → (load_page buf ph pd vaddr (mem, pmm)).0 (at + j)
        ≡ (if ltb j (file_part ph vaddr).0 then buf (add32 (file_part ph vaddr).1 j) else 0)
  own_bytes j h =
      let page : (at + j) / 4096 ≡ at / 4096 = omega (arith, place) in
      let here : at + j - at ≡ j = omega arith in
      untouched (at + j)
        (ap (used (alloc_page pmm).1) page ∙ t.now (at / 4096) ∙ ground (arith, t.at))
        (λ e. omega (arith, place, s.taken, ap (used pmm) (sym page ∙ e)))
        (λ odd e. omega (
          arith,
          place,
          s.tables_taken (vaddr / 2 ^ 22) (omega (arith, virt32)) odd,
          ap (used pmm) (sym page ∙ e),
        ))
      ∙ in_filled (at + j)
      ∙ rw here (ground arith)

  at_taken : used (alloc_page pmm).1 (at / 4096) ≡ 1
  at_taken = t.now (at / 4096) ∙ ground (arith, t.at)

  grows : Grows pd filled (alloc_page pmm).1 (load_page buf ph pd vaddr (mem, pmm))
  unfolding load_page proc_map_page
  grows = map_page-Grows user_flags mapping filled_space (Took-IsValid v t) there_still

  was_unused : (i : ℕ) → used (alloc_page pmm).1 i ≡ 0 → used pmm i ≡ 0
  was_unused i h = ground (arith, t.now i, h)

  new_entries :
      (i : ℕ)
      → i < 1024
      → let e = entry (load_page buf ph pd vaddr (mem, pmm)).0 pd i in
        (e ≡ entry mem pd i) ⊎ ((used pmm (e / 4096) ≡ 0) × (e / 4096 ≢ at / 4096))
  new_entries i h = elim (grows.entries i h) [
    | inl same ↦ inl (same ∙ entry-Keeps s kept i h)
    | inr free ↦ inr (
      was_unused (entry (load_page buf ph pd vaddr (mem, pmm)).0 pd i / 4096) free,
      λ e. omega (arith, free, at_taken, ap (used (alloc_page pmm).1) e),
    )
  ]

  loaded : LoadedPage buf ph pd vaddr mem pmm (load_page buf ph pd vaddr (mem, pmm))
  loaded = record {
    aligned = place.0;
    was_free = place.2;
    mapped = loaded_mapping;
    bytes = own_bytes;
    others = λ b u np nt. untouched b (more (b / 4096) u) np nt ∙ kept.same b u;
    now_taken = grows.still (at / 4096) at_taken;
    entries = new_entries;
    still = λ i h. grows.still i (more i h);
    spent = omega (arith, (alloc_page_spends pmm v).0, grows.spent);
  }

-- Loading a page into an address space in order, with a valid allocator that has a page for it and one for
-- the table if it is missing, does this.
pub load_page_lem :
    (buf : ℕ → ℕ) (ph : Phdr) (pd vaddr : ℕ) (mem : Memory) (pmm : Pmm)
    → vaddr < 2 ^ 32
    → IsSpace mem pd pmm
    → IsValid pmm
    → (alloc_page pmm).0 ≢ 0
    → (entry mem pd (vaddr / 2 ^ 22) % 2 ≡ 1) ⊎ ((alloc_page (alloc_page pmm).1).0 ≢ 0)
    → LoadedPage buf ph pd vaddr mem pmm (load_page buf ph pd vaddr (mem, pmm))
load_page_lem buf ph pd vaddr mem pmm h s v page there = elim (alloc_page_lem pmm v) [
  | inl full ↦ absurd (page full.null)
  | inr (k, t, lo) ↦ loaded buf ph h s v t there
]
