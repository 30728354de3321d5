-- ===== src/Arch/Exceptions.antt =====
-- arch/idt.c: the handlers of exceptions, which report on the screen. `cr2` and `cr3` are what the
-- registers hold.
pub mod Reports
use pepin_os.Base.{
  ℕ, zero, suc, ◌+◌, ◌-◌, ◌*◌, ◌/◌, ◌%◌, ◌^◌, ◌≤◌, ◌<◌, ◌≡◌, refl, sym, ap, ◌∙◌, ◌≢◌, ◌⊎◌, inl, inr,
  arith, ◌==◌, ltb, leb, min, max, bit_and, bit_or, Bool, true, false, not, ◌&&◌, ◌||◌, Option,
  none, some, List, [], ◌∷◌, ◌++◌, map, if◌then◌else◌, for_range, update, for_range-update,
  update_self, length, get_elem?, length-append, Bool-cases, Option-cases, u32_mod, add32, sub32,
  mul32, shl32, shl32-one, pow-lt-u32, ltb→lt, lt→ltb, ltb→le, ==_iff,
}
use pepin_os.Base.Text.{codes}
use pepin_os.Drivers.Screen.{Screen, putcar, print}

-- Whether a handler comes back or ends in `while (1);`.
pub data Ending : Type 0 where
  returns : Ending
  stops : Ending

-- `nibble < 10 ? '0' + nibble : 'A' + nibble - 10`
unfoldable pub hex_digit : ℕ → ℕ
hex_digit nibble = if ltb nibble 10 then b'0' + nibble else b'A' + nibble - 10

-- `for (j = ...; j >= 0; j -= 4)`, with the rounds that are left; `j` is 4 less than 4 times them.
unfoldable pub print_hex_from : ℕ → ℕ → Screen → Screen
print_hex_from zero val s = s
print_hex_from (suc rounds) val s =
    let nibble = bit_and (val / 2 ^ (4 * rounds)) 0xF in
    print_hex_from rounds val (putcar (hex_digit nibble) s)

pub print_hex : ℕ → Screen → Screen
print_hex val s = print_hex_from 8 val s

-- `kattr = 0x0C;`
abbrev pub alarm : Screen → Screen
alarm s = record s { kattr = 0x0C }

pub idt_handler_pagefault : (error eip cr2 cr3 : ℕ) → Screen → Ending × Screen
idt_handler_pagefault error eip cr2 cr3 s =
    let s1 = print_hex cr2 (print (codes "\n[!] PAGE FAULT addr=0x") (alarm s)) in
    let s2 = print_hex eip (print (codes " eip=0x") s1) in
    let s3 = print_hex error (print (codes " err=0x") s2) in
    let s4 = print (if bit_and error 4 == 0 then codes " [KERN]" else codes " [USER]") s3 in
    let s5 = print_hex cr3 (print (codes "\n    cr3=0x") s4) in (stops, putcar 10 s5)

pub idt_handler_default : Screen → Ending × Screen
idt_handler_default s = (returns, print (codes "\n[!] Interrupcion no manejada\n") (alarm s))

pub idt_handler_gpf : (error_code : ℕ) → Screen → Ending × Screen
idt_handler_gpf error_code s =
    let s1 =
      print_hex error_code
        (print (codes "\n[!] GENERAL PROTECTION FAULT  error_code: 0x") (alarm s)) in
    (stops, putcar 10 s1)

-- The characters are bytes.
pub idt_handler_numbered : ℕ → Screen → Ending × Screen
idt_handler_numbered n s =
    let s1 = print (codes "\n[!] EXCEPCION #") (alarm s) in
    let s2 = if leb 10 n then putcar ((b'0' + n / 10) % 256) s1 else s1 in
    (stops, putcar 10 (putcar ((b'0' + n % 10) % 256) s2))

pub idt_handler_div0 : Screen → Ending × Screen
idt_handler_div0 s = (stops, print (codes "\n[!] EXCEPCION: Division por cero\n") (alarm s))
