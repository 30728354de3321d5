-- ===== src/Arch/Idt.antt =====
-- arch/idt.c and arch/idt.h: the interrupt gates. The addresses of the assembly stubs are
-- parameters. The commands to the interrupt controllers are in Arch.Pic, and loading the register
-- is inline assembly.
pub mod Gates
use pepin_os.Base.{
  ℕ, ◌+◌, ◌-◌, ◌*◌, ◌/◌, ◌%◌, ◌^◌, ◌<◌, ◌≡◌, refl, ap, ◌∙◌, inl, inr, arith, ◌==◌, ltb, leb,
  bit_and, Bool, true, false, ◌&&◌, ◌||◌, List, [], ◌∷◌, if◌then◌else◌, for_range, update,
  for_range-update, Bool-cases,
}
use pepin_os.Base.{for_range-update_at}
use pepin_os.Base.Bits.Masks.{bit_and_low, bit_and_shifted}

pub record IdtDesc : Type 0 where
  pub offset0_15 : ℕ
  pub select : ℕ
  pub type : ℕ
  pub offset16_31 : ℕ

pub init_idt_desc : (select offset type : ℕ) → IdtDesc
init_idt_desc select offset type = record {
  offset0_15 = bit_and offset 0xFFFF;
  select = select;
  type = type;
  offset16_31 = bit_and offset 0xFFFF0000 / 2 ^ 16;
}

-- The stubs of arch/idt_asm.asm: `isr` and `irq` by their numbers.
pub record Stubs : Type 0 where
  pub default : ℕ
  pub div0 : ℕ
  pub isr : ℕ → ℕ
  pub gpf : ℕ
  pub pagefault : ℕ
  pub irq : ℕ → ℕ
  pub syscall : ℕ

abbrev pub idt_size : ℕ
idt_size = 256

abbrev pub idt_base : ℕ
idt_base = 0x500

-- `init_idt_desc(0x08, offset, 0x8E00, &kidt[i])`
abbrev pub gate : ℕ → ℕ → (ℕ → IdtDesc) → ℕ → IdtDesc
gate i offset idt = update idt i (init_idt_desc 0x08 offset 0x8E00)

-- `gate` with the stub of each number, in order.
pub isr_gates : List ℕ → (ℕ → ℕ) → (ℕ → IdtDesc) → ℕ → IdtDesc
isr_gates [] isr idt = idt
isr_gates (i ∷ is) isr idt = isr_gates is isr (gate i (isr i) idt)

-- `kidt`, over its old contents.
pub fill_idt : Stubs → (ℕ → IdtDesc) → ℕ → IdtDesc
fill_idt s kidt =
    let all = for_range idt_size 0 (λ i t. gate i s.default t) kidt in
    let plain =
      isr_gates (1 ∷ 2 ∷ 3 ∷ 4 ∷ 5 ∷ 6 ∷ 7 ∷ 9 ∷ 15 ∷ 16 ∷ 19 ∷ 20 ∷ []) s.isr
        (gate 0 s.div0 all) in
    let coded = isr_gates (8 ∷ 10 ∷ 11 ∷ 12 ∷ []) s.isr plain in
    let faults = isr_gates (17 ∷ []) s.isr (gate 14 s.pagefault (gate 13 s.gpf coded)) in
    let irqs = for_range 8 0 (λ i t. gate (32 + i) (s.irq i) t) faults in
    update irqs 0x30 (init_idt_desc 0x08 s.syscall 0xEF00)

-- The 8 bytes of a gate, the last of them at 7 and beyond.
abbrev pub gate_byte : IdtDesc → ℕ → ℕ
gate_byte d j =
    if j == 0
    then d.offset0_15 % 256
    else if j == 1
    then d.offset0_15 / 256
    else if j == 2
    then d.select % 256
    else if j == 3
    then d.select / 256
    else if j == 4
    then d.type % 256
    else if j == 5
    then d.type / 256
    else if j == 6
    then d.offset16_31 % 256
    else d.offset16_31 / 256

pub record Idtr : Type 0 where
  pub limite : ℕ
  pub base : ℕ

-- The register that is loaded, `kidt`, and memory.
pub init_idt : Stubs → (ℕ → IdtDesc) → (ℕ → ℕ) → Idtr × (ℕ → IdtDesc) × (ℕ → ℕ)
init_idt s old mem =
    let kidt = fill_idt s old in
    let kidtr : Idtr = record { limite = idt_size * 8; base = idt_base } in
    (
      kidtr,
      kidt,
      for_range kidtr.limite 0 (λ i m. update m (kidtr.base + i) (gate_byte (kidt (i / 8)) (i % 8)))
          mem,
    )
