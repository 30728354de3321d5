-- ===== src/Arch/Gdt.antt =====
-- arch/gdt.c and arch/gdt.h: the segment descriptors. Loading the register and the segment
-- registers is inline assembly. Memory is the byte at each address.
pub mod Segments
use pepin_os.Base.{
  ℕ, ◌+◌, ◌-◌, ◌*◌, ◌/◌, ◌%◌, ◌^◌, ◌≤◌, ◌<◌, ◌≡◌, refl, sym, ◌∙◌, arith, ◌==◌, ltb, leb, bit_and,
  true, ◌&&◌, if◌then◌else◌, for_range, update,
}
use pepin_os.Base.{for_range-update_at}
use pepin_os.Base.Bits.Masks.{bit_and_low, bit_and_shifted}

pub record GdtDesc : Type 0 where
  pub lim0_15 : ℕ
  pub base0_15 : ℕ
  pub base16_23 : ℕ
  pub acces : ℕ
  pub lim16_19 : ℕ
  pub other : ℕ
  pub base24_31 : ℕ

pub init_gdt_desc : (base limite acces other : ℕ) → GdtDesc
init_gdt_desc base limite acces other = record {
  lim0_15 = bit_and limite 0xFFFF;
  base0_15 = bit_and base 0xFFFF;
  base16_23 = bit_and base 0xFF0000 / 2 ^ 16;
  acces = acces;
  lim16_19 = bit_and limite 0xF0000 / 2 ^ 16;
  other = bit_and other 0x0F;
  base24_31 = bit_and base 0xFF000000 / 2 ^ 24;
}

-- The 8 bytes of a descriptor, the last of them at 7 and beyond.
abbrev pub desc_byte : GdtDesc → ℕ → ℕ
desc_byte d j =
    if j == 0
    then d.lim0_15 % 256
    else if j == 1
    then d.lim0_15 / 256
    else if j == 2
    then d.base0_15 % 256
    else if j == 3
    then d.base0_15 / 256
    else if j == 4
    then d.base16_23
    else if j == 5
    then d.acces
    else if j == 6
    then d.lim16_19 + 16 * d.other
    else d.base24_31

abbrev pub gdt_size : ℕ
gdt_size = 8

abbrev pub gdt_base : ℕ
gdt_base = 0xD00

-- `kgdt`, with the address of the TSS.
pub kgdt : ℕ → ℕ → GdtDesc
kgdt ktss i =
    if i == 0
    then init_gdt_desc 0 0 0x00 0x00
    else if i == 1
    then init_gdt_desc 0 0xFFFFF 0x9B 0x0D
    else if i == 2
    then init_gdt_desc 0 0xFFFFF 0x93 0x0D
    else if i == 3
    then init_gdt_desc 0 0 0x97 0x0D
    else if i == 4
    then init_gdt_desc 0 0xFFFFF 0xFF 0x0D
    else if i == 5
    then init_gdt_desc 0 0xFFFFF 0xF3 0x0D
    else if i == 6
    then init_gdt_desc 0 0 0xF7 0x0D
    else init_gdt_desc ktss 104 0x89 0x00

pub record Gdtr : Type 0 where
  pub limite : ℕ
  pub base : ℕ

-- The register that is loaded, and memory.
pub init_gdt : (ktss : ℕ) → (ℕ → ℕ) → Gdtr × (ℕ → ℕ)
init_gdt ktss mem =
    let kgdtr : Gdtr = record { limite = gdt_size * 8; base = gdt_base } in
    (
      kgdtr,
      for_range kgdtr.limite 0
          (λ i m. update m (kgdtr.base + i) (desc_byte (kgdt ktss (i / 8)) (i % 8))) mem,
    )
