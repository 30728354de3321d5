-- ===== src/Arch/Tests.antt =====
-- The tables in zeroed memory.
use pepin_os.Base.{ℕ, ◌≤◌, ◌<◌, ◌⊎◌, none, some, true, false, ◌+◌, ◌*◌, ◌≡◌, refl, arith}
use pepin_os.Base.Int.{pos}
use pepin_os.Drivers.Screen.{Screen}
use pepin_os.Arch.Exceptions.{stops, idt_handler_pagefault}
use pepin_os.Arch.Exceptions.Reports.{
  Reported, pagefault_text, hex_text, read_hex, idt_handler_pagefault_lem,
}
use pepin_os.Arch.Gdt.{init_gdt}
use pepin_os.Arch.Gdt.Segments.{Segments, init_gdt_lem}
use pepin_os.Arch.Pic.{Chip, Chips, ready, write_port, Controllers, init_interrupts}
use pepin_os.Arch.Pic.Requests.{vector, requests_lem}
use pepin_os.Arch.Idt.{Stubs, init_idt_desc}
use pepin_os.Arch.Idt.Gates.{IsGate}

abbrev stubs : Stubs
stubs = record {
  default = 0x11_0000;
  div0 = 0x11_0100;
  isr = λ i. 0x11_1000 + 16 * i;
  gpf = 0x11_0200;
  pagefault = 0x11_0300;
  irq = λ i. 0x11_2000 + 16 * i;
  syscall = 0x11_0400;
}

init_gdt_lem_example :
    let (gdtr, m) = init_gdt 0x11_5000 (λ _. 0) in
    (gdtr.base ≡ 0xD00) × (gdtr.limite ≡ 64) × Segments m gdtr.base 0x11_5000
init_gdt_lem_example = init_gdt_lem 0x11_5000 (λ _. 0) (omega arith)

abbrev at_top : Screen
at_top = record { video = λ _. 0; kx = pos 0; ky = pos 24; kattr = 7; cursor = 0 }

idt_handler_pagefault_lem_example :
    let out = idt_handler_pagefault 4 0x4000_0010 0xDEAD_BEEF 0x20_5000 at_top in
    (out.0 ≡ stops)
    × Reported (pagefault_text 4 0x4000_0010 0xDEAD_BEEF 0x20_5000) at_top out.1
    × (read_hex 0 (hex_text 8 0xDEAD_BEEF) ≡ 0xDEAD_BEEF)
    × (read_hex 0 (hex_text 8 0x4000_0010) ≡ 0x4000_0010)
    × (read_hex 0 (hex_text 8 4) ≡ 4)
    × (read_hex 0 (hex_text 8 0x20_5000) ≡ 0x20_5000)
idt_handler_pagefault_lem_example =
    idt_handler_pagefault_lem 4 0x4000_0010 0xDEAD_BEEF 0x20_5000 at_top
      (record { x = 0; y = 24; kx = refl; ky = refl; column = omega arith; row = omega arith })
      (omega arith) (omega arith) (omega arith) (omega arith)

-- Controllers that are just their registers, with the vectors 0x08 and 0x70 of the BIOS.
abbrev registers_only : Controllers
registers_only = record {
  State = Chips;
  outb = write_port;
  chips = λ c. c;
  outb_writes = λ port v c h. refl;
}

abbrev bios_chip : ℕ → Chip
bios_chip base = record {
  stage = ready;
  single = false;
  mode_follows = true;
  base = base;
  cascade = 4;
  mode = 1;
  mask = 0;
}

abbrev bios : Chips
bios = record { master = bios_chip 0x08; slave = bios_chip 0x70 }

requests_lem_example :
    let (table, s') =
      init_interrupts registers_only stubs (λ _. init_idt_desc 0 0 0) (λ _. 0) bios in
    ((1 < 2)
      × ((v : ℕ) × (vector s' 1 ≡ some v) × IsGate table.2 (0x500 + 8 * v) 0x11_2010 0x08 0x8E00))
    ⊎ ((2 ≤ 1) × (vector s' 1 ≡ none))
requests_lem_example =
    requests_lem registers_only stubs (λ _. init_idt_desc 0 0 0) (λ _. 0) bios
      (λ n h. omega (arith, h)) 1 (omega arith)
