-- ===== src/Mm/Vmm/Words.antt =====
-- The words that `map_page` writes.
use pepin_os.Base.{
  ℕ, ◌+◌, ◌-◌, ◌*◌, ◌/◌, ◌%◌, ◌^◌, ◌≤◌, ◌<◌, ◌≡◌, refl, sym, ap, ◌∙◌, ◌≢◌, inl, inr, arith, ◌==◌,
  ltb, leb, bit_and, bit_or, true, false, ◌&&◌, if◌then◌else◌,
}
use pepin_os.Base.Bits.Masks.{bit_or_aligned, bit_and_low, bit_and_page, present_bit}
use pepin_os.Base.Memory.{
  Memory, read32, write32, read32-write32, read32-lt, read32-kept, read32-written, fill32,
}
use pepin_os.Mm.Pmm.{Pmm, alloc_page}
use pepin_os.Mm.Pmm.Bitmap.{used}
use pepin_os.Mm.Paging.Translate.{entry, frame_of}
use pepin_os.Mm.Vmm.{clear_table, map_page}
use pepin_os.Mm.Vmm.Space.{IsSpace, Entered}

-- The flags that the entry of a new table has.
pub record AddsFlags (dir_entry : ℕ → ℕ) (f : ℕ) : Type 0 where
  pub adds : (a : ℕ) → a % 4096 ≡ 0 → dir_entry a ≡ a + f
  pub small : f < 4096
  pub odd : f % 2 ≡ 1

-- What is mapped: a page to a frame, with flags of which one is PAGE_PRESENT.
pub record IsMapping (virt phys flags : ℕ) : Type 0 where
  pub virt32 : virt < 2 ^ 32
  pub frame : phys % 4096 ≡ 0
  pub phys32 : phys < 2 ^ 32
  pub small : flags < 4096
  pub present : flags % 2 ≡ 1

read32-clear_table :
    (at : ℕ) (mem : Memory) (b : ℕ)
    → at % 4 ≡ 0
    → b % 4 ≡ 0
    → read32 (clear_table at mem) b ≡ (if leb at b && ltb b (at + 4096) then 0 else read32 mem b)
unfolding clear_table
read32-clear_table at mem b ha hb =
    fill32 1024 0 at (λ _. 0) mem b ha hb (λ k h. omega arith) ∙ ground arith

-- Writing an entry of a table that is in its place.
pub entry-Entered :
    {pd virt : ℕ} {mem : Memory} {pmm : Pmm}
    → virt < 2 ^ 32
    → IsSpace mem pd pmm
    → (table pte : ℕ) → pte < 2 ^ 32
    → entry mem pd (virt / 2 ^ 22) % 2 ≡ 1
    → frame_of (entry mem pd (virt / 2 ^ 22)) ≡ table
    → Entered mem
        (write32 mem (table + 4 * (virt / 2 ^ 12 % 1024)) pte)
        pd
        virt
        table
        (entry mem pd (virt / 2 ^ 22))
        pte
entry-Entered {pd} {virt} {mem} hv s table pte fits odd e =
    let at = table + 4 * (virt / 2 ^ 12 % 1024) in
    let page : table % 4096 ≡ 0 = omega (arith, e) in
    let off : table ≢ pd =
      λ same. s.tables_apart (virt / 2 ^ 22) (omega (arith, hv)) odd (e ∙ same) in
    let keep =
      λ (b : ℕ) (h : b % 4 ≡ 0) (ne : at ≢ b). read32-kept mem at pte b (omega arith) h fits ne in
    record {
      page = page;
      off_directory = off;
      elsewhere = λ i h ne p. (
        λ same. ne (s.once (virt / 2 ^ 22) i (omega (arith, hv)) h odd p (e ∙ sym same)),
        s.tables_apart i h p,
      );
      directory =
          keep (pd + 4 * (virt / 2 ^ 22)) (omega (arith, s.aligned))
            (λ same. off (omega (arith, same, s.aligned, hv)));
      points = (odd, e);
      written = read32-written mem at pte (omega arith) fits;
      siblings = λ j h ne.
          inl (refl, keep (table + 4 * j) (omega arith) (λ same. ne (omega (arith, same))));
      rest = λ b h ns out. keep b h (λ same. out (omega (arith, same)));
    }

module _ {dir_entry : ℕ → ℕ} {f pd virt phys flags : ℕ} {mem : Memory} {pmm : Pmm}
    (adds : AddsFlags dir_entry f) (m : IsMapping virt phys flags) (s : IsSpace mem pd pmm) where
  abbrev pub slot_word : ℕ
  slot_word = entry mem pd (virt / 2 ^ 22)

  -- Writing the entry of a page in a table that is in its place.
  write_entry :
      (now : Memory) (pde : ℕ)
      → entry now pd (virt / 2 ^ 22) ≡ pde
      → let pt = bit_and (read32 now (pd + 4 * (virt / 2 ^ 22))) (2 ^ 32 - 1 - 0xFFF) in
        write32 now (pt + 4 * bit_and (virt / 2 ^ 12) 0x3FF) (bit_or phys flags)
        ≡ write32 now (frame_of pde + 4 * (virt / 2 ^ 12 % 1024)) (phys + flags)
  write_entry now pde e =
      rw
        (
          bit_and_page (read32 now (pd + 4 * (virt / 2 ^ 22)))
              (read32-lt now (pd + 4 * (virt / 2 ^ 22))),
          e,
          bit_and_low 10 (virt / 2 ^ 12),
          bit_or_aligned phys flags m.frame m.small,
        )
        refl

  pub present_lem :
      slot_word % 2 ≡ 1
      → map_page dir_entry pd virt phys flags mem pmm
        ≡ (write32 mem (frame_of slot_word + 4 * (virt / 2 ^ 12 % 1024)) (phys + flags), pmm)
  unfolding map_page
  present_lem odd =
      let here : bit_and slot_word 1 == 0 ≡ false = ground (arith, present_bit slot_word) in
      rw here (ap (λ (x : Memory). (x, pmm)) (write_entry mem slot_word refl))

  pub present_Entered :
      (table : ℕ)
      → slot_word % 2 ≡ 1
      → frame_of slot_word ≡ table
      → Entered mem
          (write32 mem (table + 4 * (virt / 2 ^ 12 % 1024)) (phys + flags))
          pd
          virt
          table
          slot_word
          (phys + flags)
  present_Entered table odd e =
      entry-Entered m.virt32 s table (phys + flags) (omega (arith, m.frame, m.phys32, m.small)) odd
        e

  module _ (addr : ℕ)
      (took : (addr % 4096 ≡ 0) × (addr + 4096 ≤ 2 ^ 32) × (used pmm (addr / 4096) ≡ 0)) where
    unfoldable pub with_table : Memory
    with_table = write32 (clear_table addr mem) (pd + 4 * (virt / 2 ^ 22)) (addr + f)

    read32-with_table :
        (b : ℕ)
        → b % 4 ≡ 0
        → read32 with_table b ≡ (
            if pd + 4 * (virt / 2 ^ 22) == b
            then addr + f
            else if leb addr b && ltb b (addr + 4096)
            then 0
            else read32 mem b)
    unfolding with_table
    read32-with_table b h =
        read32-write32 (clear_table addr mem) (pd + 4 * (virt / 2 ^ 22)) (addr + f) b
          (omega (arith, s.aligned)) h (omega (arith, took, adds.small))
        ∙ ground (arith, read32-clear_table addr mem b (omega (arith, took)) h)

    off_directory : addr ≢ pd
    off_directory same = omega (arith, took, s.taken, ap (λ (x : ℕ). used pmm (x / 4096)) same)

    fresh : (i : ℕ) → i < 1024 → entry mem pd i % 2 ≡ 1 → frame_of (entry mem pd i) ≢ addr
    fresh i h p same =
        let place : entry mem pd i / 4096 ≡ addr / 4096 = omega (arith, same) in
        omega (arith, took, s.tables_taken i h p, ap (used pmm) place)

    pub absent_Entered :
        slot_word % 2 ≡ 0
        → Entered mem
            (write32 with_table (addr + 4 * (virt / 2 ^ 12 % 1024)) (phys + flags))
            pd
            virt
            addr
            (addr + f)
            (phys + flags)
    absent_Entered even =
        let at = addr + 4 * (virt / 2 ^ 12 % 1024) in
        let fits : phys + flags < 2 ^ 32 = omega (arith, m.frame, m.phys32, m.small) in
        let keep = λ (b : ℕ) (h : b % 4 ≡ 0) (ne : at ≢ b).
          read32-kept with_table at (phys + flags) b (omega (arith, took)) h fits ne in
        record {
          page = took.0;
          off_directory = off_directory;
          elsewhere = λ i h ne p. (λ same. fresh i h p same, s.tables_apart i h p);
          directory =
              keep (pd + 4 * (virt / 2 ^ 22)) (omega (arith, s.aligned))
                (λ same. off_directory (omega (arith, same, s.aligned, m.virt32, took)))
              ∙ read32-with_table (pd + 4 * (virt / 2 ^ 22)) (omega (arith, s.aligned))
              ∙ ground arith;
          points = (omega (arith, took, adds.odd), omega (arith, took, adds.small));
          written = read32-written with_table at (phys + flags) (omega (arith, took)) fits;
          siblings = λ j h ne. inr (
            even,
            keep (addr + 4 * j) (omega (arith, took)) (λ same. ne (omega (arith, same)))
                ∙ read32-with_table (addr + 4 * j) (omega (arith, took))
                ∙ (let ns : pd + 4 * (virt / 2 ^ 22) ≢ addr + 4 * j =
                      λ same. off_directory (omega (arith, same, s.aligned, m.virt32, took)) in
                    ground (arith, ns)),
          );
          rest = λ b h ns out.
              keep b h (λ same. out (omega (arith, same, took)))
              ∙ read32-with_table b h
              ∙ ground (arith, ns, out);
        }

    pub absent_lem :
        slot_word % 2 ≡ 0
        → (alloc_page pmm).0 ≡ addr
        → map_page dir_entry pd virt phys flags mem pmm ≡ (
          write32 with_table (addr + 4 * (virt / 2 ^ 12 % 1024)) (phys + flags),
          (alloc_page pmm).1,
        )
    unfolding map_page with_table
    absent_lem even e =
        let here : bit_and slot_word 1 == 0 ≡ true = ground (arith, present_bit slot_word) in
        let now : entry with_table pd (virt / 2 ^ 22) ≡ addr + f =
          read32-with_table (pd + 4 * (virt / 2 ^ 22)) (omega (arith, s.aligned)) ∙ ground arith in
        let points : frame_of (addr + f) ≡ addr = omega (arith, took, adds.small) in
        rw (here, e, adds.adds addr took.0)
          (ap (λ (x : Memory). (x, (alloc_page pmm).1))
            (write_entry with_table (addr + f) now
              ∙ ap (λ (a : ℕ). write32 with_table (a + 4 * (virt / 2 ^ 12 % 1024)) (phys + flags))
                  points))
