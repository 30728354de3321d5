-- ===== src/Arch/Pic.antt =====
-- The commands of `init_idt` of arch/idt.c to the two interrupt controllers. The controllers are a
-- parameter, with what the data sheet of the 8259A says of the registers behind its two ports.
pub mod Requests
use pepin_os.Base.{
  ℕ, zero, suc, ◌+◌, ◌-◌, ◌/◌, ◌%◌, ◌^◌, ◌≤◌, ◌<◌, ◌≡◌, refl, ap, ◌∙◌, ◌⊎◌, inl, inr, arith, ◌==◌,
  ltb, bit_and, Bool, true, false, not, ◌||◌, ◌&&◌, Option, none, some, if◌then◌else◌,
}
use pepin_os.Arch.Idt.{Stubs, IdtDesc, Idtr, init_idt}

-- What a controller takes the next byte at its data port for: the mask, or one of the words 2 to 4 of
-- its initialisation.
pub data Stage : Type 0 where
  ready : Stage
  wants_base : Stage
  wants_cascade : Stage
  wants_mode : Stage

pub record Chip : Type 0 where
  pub stage : Stage
  pub single : Bool
  pub mode_follows : Bool
  pub base : ℕ
  pub cascade : ℕ
  pub mode : ℕ
  pub mask : ℕ

-- A byte at the command port. The first word of the initialisation has bit 4; other commands change
-- none of these registers.
abbrev pub write_command : ℕ → Chip → Chip
write_command v c = if v / 16 % 2 == 0 then c else record c {
  stage = wants_base;
  single = not (v / 2 % 2 == 0);
  mode_follows = not (v % 2 == 0);
  mode = if v % 2 == 0 then 0 else c.mode;
  mask = 0;
}

abbrev pub after_cascade : Bool → Stage
after_cascade follows = if follows then wants_mode else ready

abbrev pub write_data : ℕ → Chip → Chip
write_data v c = elim c.stage [
  | ready ↦ record c { mask = v }
  | wants_base ↦ record c {
    base = v - v % 8;
    stage = if c.single then after_cascade c.mode_follows else wants_cascade;
  }
  | wants_cascade ↦ record c { cascade = v; stage = after_cascade c.mode_follows }
  | wants_mode ↦ record c { mode = v; stage = ready }
]

pub record Chips : Type 0 where
  pub master : Chip
  pub slave : Chip

abbrev pub write_port : (port v : ℕ) → Chips → Chips
write_port port v c = record {
  master =
      if port == 0x20
      then write_command v c.master
      else if port == 0x21
      then write_data v c.master
      else c.master;
  slave =
      if port == 0xA0
      then write_command v c.slave
      else if port == 0xA1
      then write_data v c.slave
      else c.slave;
}

-- The instruction `outb` on the controllers, and the registers that it sets.
pub record Controllers : Type 1 where
  pub State : Type 0
  pub outb : (port v : ℕ) → State → State
  pub chips : State → Chips
  pub outb_writes :
      (port v : ℕ) (s : State) → v < 256 → chips (outb port v s) ≡ write_port port v (chips s)

abbrev pub pic_master_cmd : ℕ
pic_master_cmd = 0x20

abbrev pub pic_master_data : ℕ
pic_master_data = 0x21

abbrev pub pic_slave_cmd : ℕ
pic_slave_cmd = 0xA0

abbrev pub pic_slave_data : ℕ
pic_slave_data = 0xA1

-- `/* Reprogramar 8259A */`
pub program_pics : (p : Controllers) → p.State → p.State
program_pics p s =
    let m1 = p.outb pic_master_cmd 0x11 s in
    let m2 = p.outb pic_master_data 0x20 m1 in
    let m3 = p.outb pic_master_data 0x04 m2 in
    let m4 = p.outb pic_master_data 0x01 m3 in
    let s1 = p.outb pic_slave_cmd 0x11 m4 in
    let s2 = p.outb pic_slave_data 0x28 s1 in
    let s3 = p.outb pic_slave_data 0x02 s2 in
    let s4 = p.outb pic_slave_data 0x01 s3 in
    p.outb pic_slave_data 0xFF (p.outb pic_master_data 0xFC s4)

-- The whole of `init_idt`: the controllers, and the table with its register.
pub init_interrupts :
    (p : Controllers)
    → Stubs
    → (ℕ → IdtDesc)
    → (mem : ℕ → ℕ) → p.State
    → (Idtr × (ℕ → IdtDesc) × (ℕ → ℕ)) × p.State
init_interrupts p stubs kidt mem s = (init_idt stubs kidt mem, program_pics p s)
