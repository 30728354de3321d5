-- ===== src/Fs/Elf/Directory.antt =====
-- The directory of a new process.
use pepin_os.Base.{
  ℕ, suc, ◌+◌, ◌-◌, ◌*◌, ◌/◌, ◌%◌, ◌^◌, ◌≤◌, ◌<◌, ◌≡◌, refl, ap, ◌∙◌, ◌≢◌, inl, inr, arith, ltb,
  leb, ◌&&◌, if◌then◌else◌, Bool-cases,
}
use pepin_os.Base.Memory.{Memory, read32, write32, write32-byte, for_range_outside, copy32}
use pepin_os.Mm.Pmm.{Pmm, alloc_page}
use pepin_os.Mm.Pmm.Bitmap.{used}
use pepin_os.Mm.Pmm.Valid.{IsValid}
use pepin_os.Mm.Pmm.Exhaust.{alloc_page_left, alloc_page_spends}
use pepin_os.Fs.Elf.Kept.{Owned}
use pepin_os.Mm.Pmm.Alloc.{Took, alloc_page_lem}
use pepin_os.Mm.Pmm.Keeps.{Took-IsValid}
use pepin_os.Mm.Paging.{kernel_pd_addr}
use pepin_os.Mm.Paging.Translate.{entry, frame_of, translate, translate_same}
use pepin_os.Mm.Vmm.Space.{IsSpace}
use pepin_os.Mm.Vmm.Map.{new_page}
use pepin_os.Fs.Elf.{proc_alloc_pd}

module _ {mem : Memory} {pmm : Pmm} {k : ℕ} (s : IsSpace mem kernel_pd_addr pmm) (v : IsValid pmm)
    (t : Took pmm k (alloc_page pmm).0 (alloc_page pmm).1) where
  abbrev at : ℕ
  at = (alloc_page pmm).0

  place : (at % 4096 ≡ 0) × (at + 4096 ≤ 2 ^ 32) × (used pmm (at / 4096) ≡ 0)
  place = new_page v t

  -- A taken page is another one.
  off : (b : ℕ) → used pmm (b / 4096) ≡ 1 → b / 4096 ≢ at / 4096
  off b h same = omega (arith, h, place, ap (used pmm) same)

  copied :
      (b : ℕ)
      → b % 4 ≡ 0
      → read32 (proc_alloc_pd mem pmm).1 b ≡ (
          if leb at b && ltb b (at + 4096)
          then read32 mem (kernel_pd_addr + (b - at))
          else read32 mem b)
  unfolding proc_alloc_pd
  copied b h =
      let apart = off kernel_pd_addr s.taken in
      copy32 1024 0 (alloc_page pmm).0 kernel_pd_addr mem b (omega (arith, place)) refl h
        (elim (Bool-cases (ltb (alloc_page pmm).0 kernel_pd_addr)) [
          | inl before ↦ inl (ground (arith, place, apart))
          | inr behind ↦ inr (ground (arith, place, apart))
        ])
      ∙ ground arith

  copied_entry :
      (i : ℕ) → i < 1024 → entry (proc_alloc_pd mem pmm).1 at i ≡ entry mem kernel_pd_addr i
  copied_entry i h =
      let inside : kernel_pd_addr + (at + 4 * i - at) ≡ kernel_pd_addr + 4 * i = omega arith in
      copied (at + 4 * i) (omega (arith, place)) ∙ ground (arith, ap (read32 mem) inside)

  kept_word :
      (b : ℕ)
      → b % 4 ≡ 0
      → used pmm (b / 4096) ≡ 1
      → read32 (proc_alloc_pd mem pmm).1 b ≡ read32 mem b
  kept_word b h u = copied b h ∙ ground (arith, off b u, place)

  now_used : (i : ℕ) → used pmm i ≡ 1 → used (alloc_page pmm).1 i ≡ 1
  now_used i h = t.now i ∙ ground (arith, h)

  copied_space : IsSpace (proc_alloc_pd mem pmm).1 at (alloc_page pmm).1
  copied_space =
      let e = copied_entry in
      record {
        aligned = place.0;
        inside = place.1;
        taken = t.now (at / 4096) ∙ ground (arith, t.at);
        tables_taken = λ i h p.
            now_used (entry (proc_alloc_pd mem pmm).1 at i / 4096)
              (rw (e i h) (s.tables_taken i h (rw (e i h) at p)));
        tables_apart = λ i h p same.
            off (entry mem kernel_pd_addr i) (s.tables_taken i h (rw (e i h) at p))
              (omega (arith, rw (e i h) at same, place));
        once = λ i j hi hj pi pj same.
            s.once i j hi hj (rw (e i hi) at pi) (rw (e j hj) at pj) (rw (e i hi, e j hj) at same);
      }

  copied_translation :
      (v : ℕ)
      → v < 2 ^ 32
      → translate (proc_alloc_pd mem pmm).1 at v ≡ translate mem kernel_pd_addr v
  copied_translation v h =
      let d = v / 2 ^ 22 in
      translate_same mem (proc_alloc_pd mem pmm).1 kernel_pd_addr at v
        (copied_entry d (omega arith))
        (λ p.
          kept_word (frame_of (entry mem kernel_pd_addr d) + 4 * (v / 2 ^ 12 % 1024)) (omega arith)
            (ap (used pmm) (omega arith) ∙ s.tables_taken d (omega arith) p))

  -- The bytes of a page of another owner.
  copied_bytes :
      (frame o : ℕ)
      → frame % 4096 ≡ 0
      → o < 4096
      → Owned kernel_pd_addr frame (mem, pmm)
      → (proc_alloc_pd mem pmm).1 (frame + o) ≡ mem (frame + o)
  unfolding proc_alloc_pd
  copied_bytes frame o ha h w =
      let ne = off frame w.taken in
      for_range_outside 1024 0 (λ i m. write32 m (at + 4 * i) (read32 m (kernel_pd_addr + 4 * i)))
        mem (frame + o)
        (λ i m lo hi.
          write32-byte m (at + 4 * i) (read32 m (kernel_pd_addr + 4 * i)) (frame + o)
          ∙ ground (arith, place, ne))

  copied_Owned :
      (frame : ℕ)
      → Owned kernel_pd_addr frame (mem, pmm)
      → Owned at frame ((proc_alloc_pd mem pmm).1, (alloc_page pmm).1)
  copied_Owned frame w = record {
    taken = now_used (frame / 4096) w.taken;
    off_directory = off frame w.taken;
    off_tables =
        λ i h p e. w.off_tables i h (rw (copied_entry i h) at p) (rw (copied_entry i h) at e);
  }

-- The address space of a new process: it translates each address as the kernel's does, in a page
-- that was free, and the pages of other owners are theirs still.
pub record NewSpace (mem : Memory) (pmm : Pmm) (out : ℕ × Memory × Pmm) : Type 0 where
  pub space : IsSpace out.1 out.0 out.2
  pub valid : IsValid out.2
  pub was_free : used pmm (out.0 / 4096) ≡ 0
  pub spent : suc out.2.free_pages ≡ pmm.free_pages
  pub still : (i : ℕ) → used pmm i ≡ 1 → used out.2 i ≡ 1
  pub translation : (v : ℕ) → v < 2 ^ 32 → translate out.1 out.0 v ≡ translate mem kernel_pd_addr v
  pub owned : (frame : ℕ) → Owned kernel_pd_addr frame (mem, pmm) → Owned out.0 frame (out.1, out.2)
  pub bytes :
      (frame o : ℕ)
      → frame % 4096 ≡ 0
      → o < 4096
      → Owned kernel_pd_addr frame (mem, pmm)
      → out.1 (frame + o) ≡ mem (frame + o)

-- In the kernel's address space, if it is in order and the allocator is valid and has a page
-- left, `proc_alloc_pd` makes such an address space.
pub proc_alloc_pd_lem :
    (mem : Memory) (pmm : Pmm)
    → IsSpace mem kernel_pd_addr pmm
    → IsValid pmm
    → 0 < pmm.free_pages
    → NewSpace mem pmm (proc_alloc_pd mem pmm)
unfolding proc_alloc_pd
proc_alloc_pd_lem mem pmm s v left =
    let there = alloc_page_left pmm v left in
    elim (alloc_page_lem pmm v) [
      | inl full ↦ absurd (there.0 full.null)
      | inr (k, t, lo) ↦ record {
        space = copied_space s v t;
        valid = Took-IsValid v t;
        was_free = (place s v t).2;
        spent = there.2;
        still = (alloc_page_spends pmm v).1;
        translation = copied_translation s v t;
        owned = copied_Owned s v t;
        bytes = copied_bytes s v t;
      }
    ]
