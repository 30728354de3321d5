-- ===== src/Fs/Elf/Sample.antt =====
-- A program for tests of the loader and of what calls it: it has a segment of two pages, of which 100
-- bytes are in the file, and one more such segment.
use pepin_os.Base.{
  ℕ, zero, suc, ◌+◌, ◌-◌, ◌≤◌, ◌*◌, ◌/◌, ◌<◌, ◌≡◌, refl, ◌⊎◌, inl, inr, arith, ◌==◌, ◌||◌,
  if◌then◌else◌,
}
use pepin_os.Base.Memory.{read32}
use pepin_os.Mm.Pmm.{Pmm}
use pepin_os.Fs.Elf.{e_phnum, phdr_at}
use pepin_os.Fs.Elf.Image.{pages_of}
use pepin_os.Fs.Elf.Program.{header, IsProgram, pages_needed}
use pepin_os.Fs.Elf.Process.{Fits}

-- Two headers of 32 bytes, from the byte 52 on.
abbrev pub program : ℕ → ℕ
program a =
    if a == 0
    then 0x7F
    else if a == 1
    then b'E'
    else if a == 2
    then b'L'
    else if a == 3
    then b'F'
    else if a == 27
    then 0x40
    else if a == 28
    then 52
    else if a == 42
    then 32
    else if a == 44
    then 2
    else if (a == 52) || (a == 84)
    then 1
    else if a == 57
    then 0x10
    else if (a == 63) || (a == 95)
    then 0x40
    else if a == 94
    then 1
    else if (a == 68) || (a == 100)
    then 100
    else if (a == 73) || (a == 105)
    then 0x11
    else 0

first_header : header program 0 ≡ record {
  p_type = 1;
  p_offset = 0x1000;
  p_vaddr = 0x4000_0000;
  p_filesz = 100;
  p_memsz = 0x1100;
}
unfolding phdr_at read32
first_header = refl

second_header :
    header program 1
    ≡ record { p_type = 1; p_offset = 0; p_vaddr = 0x4001_0000; p_filesz = 100; p_memsz = 0x1100 }
unfolding phdr_at read32
second_header = refl

one_of_two : (i : ℕ) → i < 2 → (i ≡ 0) ⊎ (i ≡ 1)
one_of_two zero h = inl refl
one_of_two (suc zero) h = inr refl
one_of_two (suc (suc i)) h = absurd (omega (arith, h))

-- A buffer that holds the program: it may come from a file.
module _ (buf : ℕ → ℕ) (count : e_phnum buf ≡ 2) (first : header buf 0 ≡ header program 0)
    (second : header buf 1 ≡ header program 1) where
  places :
      (i : ℕ)
      → i < 2
      → ((header buf i).p_vaddr / 4096 ≡ 0x4_0000 + 16 * i) × (pages_of (header buf i) ≡ 2)
  unfolding pages_of
  places i h = elim (one_of_two i h) [
    | inl e ↦ rw (e, first, first_header) (refl, refl)
    | inr e ↦ rw (e, second, second_header) (refl, refl)
  ]

  holds-IsProgram : IsProgram buf 2
  unfolding pages_of
  holds-IsProgram = record {
    loadable = λ i h p. elim (one_of_two i h) [
      | inl e ↦
          rw (e, first, first_header)
            (record { fits = omega arith; inside = omega arith; file = omega arith })
      | inr e ↦
          rw (e, second, second_header)
            (record { fits = omega arith; inside = omega arith; file = omega arith })
    ];
    apart = λ i j hi hj ne pi pj m hm o ho same.
        omega (arith, places i hi, places j hj, hm, ho, same, ne);
  }

  pub holds-Fits : (pmm : Pmm) → 13 + (pmm.total_pages - 4096) ≤ pmm.free_pages → Fits buf pmm
  unfolding pages_needed pages_of
  holds-Fits pmm room = record {
    program = rw count holds-IsProgram;
    off_stack = λ i h p o ho same. omega (arith, places i (rw count at h), ho, same);
    enough = rw (count, first, second, first_header, second_header) (omega (arith, room));
  }
