-- ===== src/Fs/Elf/Part.antt =====
-- The part of the file that a page of a segment has.
use pepin_os.Base.{
  ℕ, ◌+◌, ◌-◌, ◌^◌, ◌≤◌, ◌<◌, ◌≡◌, refl, ap, ◌∙◌, inl, inr, arith, ltb, min, if◌then◌else◌,
  Bool-cases, add32, sub32,
}
use pepin_os.Fs.Elf.{Phdr, file_part}

-- The segment lies below the end of the address space, and its part of the file below 4 GB.
pub record IsLoadable (ph : Phdr) : Type 0 where
  pub fits : ph.p_vaddr + ph.p_memsz + 4095 < 2 ^ 32
  pub inside : ph.p_filesz ≤ ph.p_memsz
  pub file : ph.p_offset + ph.p_filesz < 2 ^ 32

module _ (ph : Phdr) (l : IsLoadable ph) where
  -- What is left of the file from the address `t` on, as it is computed modulo 2^32.
  left_of_file :
      (t : ℕ)
      → t < ph.p_vaddr + ph.p_filesz
      → ph.p_vaddr < t + 4096
      → sub32 (add32 ph.p_offset ph.p_filesz) (add32 ph.p_offset (sub32 t ph.p_vaddr))
        ≡ ph.p_vaddr + ph.p_filesz - t
  left_of_file t hi near = elim (Bool-cases (ltb t ph.p_vaddr)) [
    | inl before ↦
        let lt : t < ph.p_vaddr = ground arith in
        omega (arith, l.file, l.inside, l.fits, lt, hi, near)
    | inr behind ↦
        let le : ph.p_vaddr ≤ t = ground arith in omega (arith, l.file, l.inside, l.fits, le, hi)
  ]

  part_size :
      (t : ℕ)
      → ph.p_vaddr < t + 4096
      → (file_part ph t).0
        ≡ (if ltb t (ph.p_vaddr + ph.p_filesz) then min (ph.p_vaddr + ph.p_filesz - t) 4096 else 0)
  unfolding file_part
  part_size t near =
      let whole : add32 ph.p_vaddr ph.p_filesz ≡ ph.p_vaddr + ph.p_filesz =
        omega (arith, l.inside, l.fits) in
      rw whole (elim (Bool-cases (ltb t (ph.p_vaddr + ph.p_filesz))) [
        | inl there ↦ rw (there, left_of_file t (ground arith) near) (ground arith)
        | inr behind ↦ rw behind refl
      ])

  part_source : (t : ℕ) → (file_part ph t).1 ≡ add32 ph.p_offset (sub32 t ph.p_vaddr)
  unfolding file_part
  part_source t = elim (Bool-cases (ltb t (add32 ph.p_vaddr ph.p_filesz))) [
    | inl there ↦ rw there refl
    | inr behind ↦ rw behind refl
  ]

  pub same_test :
      (t o : ℕ)
      → o < 4096
      → ph.p_vaddr ≤ t + o
      → ltb o (file_part ph t).0 ≡ ltb (t + o - ph.p_vaddr) ph.p_filesz
  same_test t o h lo = rw (part_size t (omega (arith, h, lo))) (ground arith)

  pub same_index :
      (t o : ℕ)
      → o < 4096
      → ph.p_vaddr ≤ t + o
      → t + o < ph.p_vaddr + ph.p_filesz
      → add32 (file_part ph t).1 o ≡ ph.p_offset + (t + o - ph.p_vaddr)
  same_index t o h lo hi =
      ap (λ (w : ℕ). add32 w o) (part_source t) ∙ (elim (Bool-cases (ltb t ph.p_vaddr)) [
        | inl before ↦
            let lt : t < ph.p_vaddr = ground arith in
            omega (arith, l.file, l.inside, l.fits, lt, hi, lo, h)
        | inr behind ↦
            let le : ph.p_vaddr ≤ t = ground arith in
            omega (arith, l.file, l.inside, l.fits, le, hi, h)
      ])
