-- ===== src/Arch/Exceptions/Reports.antt =====
-- What the handlers of exceptions put on the screen.
use pepin_os.Base.{
  ℕ, zero, suc, ◌+◌, ◌-◌, ◌*◌, ◌/◌, ◌%◌, ◌^◌, ◌<◌, ◌≡◌, refl, ap, ◌∙◌, arith, ◌==◌, leb, bit_and,
  Bool, true, false, not, ◌&&◌, List, [], ◌∷◌, ◌++◌, if◌then◌else◌,
}
use pepin_os.Base.Bits.Masks.{bit_and_low}
use pepin_os.Base.Text.{codes}
use pepin_os.Drivers.Screen.{Screen, putcar, print}
use pepin_os.Drivers.Screen.Cursor.{IsOnScreen}
use pepin_os.Drivers.Screen.Text.{NoTab, Outside, print-IsOnScreen, print-append}
use pepin_os.Arch.Exceptions.{
  Ending, stops, hex_digit, print_hex_from, print_hex, alarm, idt_handler_pagefault,
}

-- The digits of the low `4 * n` bits, the highest first.
pub hex_text : ℕ → ℕ → List ℕ
hex_text zero val = []
hex_text (suc n) val = hex_digit (val / 2 ^ (4 * n) % 16) ∷ hex_text n val

-- A number as one reads it: digits with `A` to `F` above 9.
pub digit_value : ℕ → ℕ
digit_value c = if leb c b'9' then c - b'0' else c + 10 - b'A'

pub read_hex : ℕ → List ℕ → ℕ
read_hex acc [] = acc
read_hex acc (c ∷ cs) = read_hex (16 * acc + digit_value c) cs

digit_value-hex_digit : (n : ℕ) → n < 16 → digit_value (hex_digit n) ≡ n
unfolding digit_value hex_digit
digit_value-hex_digit n h = ground (arith, h)

read_hex-hex_text : (val : ℕ) → val < 2 ^ 32 → read_hex 0 (hex_text 8 val) ≡ val
unfolding read_hex hex_text
read_hex-hex_text val h =
    let digit : (k : ℕ) → digit_value (hex_digit (val / k % 16)) ≡ val / k % 16 =
      λ k. digit_value-hex_digit (val / k % 16) (omega arith) in
    rw
      (
        digit (2 ^ 28),
        digit (2 ^ 24),
        digit (2 ^ 20),
        digit (2 ^ 16),
        digit (2 ^ 12),
        digit (2 ^ 8),
        digit (2 ^ 4),
        digit 1,
      )
      (omega arith)

print_hex_from-hex_text :
    (n val : ℕ) (s : Screen) → print_hex_from n val s ≡ print (hex_text n val) s
unfolding print_hex_from hex_text print
print_hex_from-hex_text zero val s = refl
print_hex_from-hex_text (suc n) val s =
    rw (bit_and_low 4 (val / 2 ^ (4 * n)))
      (print_hex_from-hex_text n val (putcar (hex_digit (val / 2 ^ (4 * n) % 16)) s))

-- The digits are no tabulators.
hex_text-NoTab : (n val : ℕ) → NoTab (hex_text n val)
unfolding hex_text hex_digit
hex_text-NoTab zero val = tt
hex_text-NoTab (suc n) val = (λ e. ground (arith, e), hex_text-NoTab n val)

NoTab-append : (xs ys : List ℕ) → NoTab xs → NoTab ys → NoTab (xs ++ ys)
NoTab-append [] ys a b = b
NoTab-append (x ∷ xs) ys a b = (a.0, NoTab-append xs ys a.1 b)

no_tab : List ℕ → Bool
no_tab [] = true
no_tab (c ∷ cs) = not (c == 9) && no_tab cs

no_tab-NoTab : (cs : List ℕ) → no_tab cs ≡ true → NoTab cs
unfolding no_tab
no_tab-NoTab [] h = tt
no_tab-NoTab (c ∷ cs) h = (λ e. ground (arith, e, h), no_tab-NoTab cs (ground (arith, h)))

-- What a page fault is reported as: the address, where the program stood, the error code, whose bit 2
-- tells user code, and the directory.
pub pagefault_text : (error eip cr2 cr3 : ℕ) → List ℕ
pagefault_text error eip cr2 cr3 =
    codes "\n[!] PAGE FAULT addr=0x"
    ++ (hex_text 8 cr2
        ++ (codes " eip=0x"
            ++ (hex_text 8 eip
                ++ (codes " err=0x"
                    ++ (hex_text 8 error
                        ++ ((if bit_and error 4 == 0 then codes " [KERN]" else codes " [USER]")
                            ++ (codes "\n    cr3=0x" ++ (hex_text 8 cr3 ++ (10 ∷ [])))))))))

print_hex-hex_text : (val : ℕ) (s : Screen) → print_hex val s ≡ print (hex_text 8 val) s
unfolding print_hex
print_hex-hex_text val s = print_hex_from-hex_text 8 val s

print_one : (c : ℕ) (s : Screen) → print (c ∷ []) s ≡ putcar c s
unfolding print
print_one c s = refl

pagefault_prints :
    (error eip cr2 cr3 : ℕ) (s : Screen)
    → idt_handler_pagefault error eip cr2 cr3 s
      ≡ (stops, print (pagefault_text error eip cr2 cr3) (alarm s))
unfolding idt_handler_pagefault pagefault_text
pagefault_prints error eip cr2 cr3 s = simp (print-append, print_hex-hex_text, print_one) refl

mode-NoTab : (b : Bool) → NoTab (if b then codes " [KERN]" else codes " [USER]")
unfolding no_tab
mode-NoTab true = no_tab-NoTab (codes " [KERN]") refl
mode-NoTab false = no_tab-NoTab (codes " [USER]") refl

record Clean (cs : List ℕ) : Type 0 where
  clean : NoTab cs

text_then : (cs : List ℕ) {ys : List ℕ} → no_tab cs ≡ true → Clean ys → Clean (cs ++ ys)
text_then cs {ys} h c = record { clean = NoTab-append cs ys (no_tab-NoTab cs h) c.clean }

hex_then : (val : ℕ) {ys : List ℕ} → Clean ys → Clean (hex_text 8 val ++ ys)
hex_then val {ys} c = record {
  clean = NoTab-append (hex_text 8 val) ys (hex_text-NoTab 8 val) c.clean;
}

mode_then :
    (b : Bool) {ys : List ℕ}
    → Clean ys
    → Clean ((if b then codes " [KERN]" else codes " [USER]") ++ ys)
mode_then b {ys} c = record {
  clean = NoTab-append (if b then codes " [KERN]" else codes " [USER]") ys (mode-NoTab b) c.clean;
}

pagefault-Clean : (error eip cr2 cr3 : ℕ) → Clean (pagefault_text error eip cr2 cr3)
unfolding pagefault_text no_tab
pagefault-Clean error eip cr2 cr3 = text_then (codes "\n[!] PAGE FAULT addr=0x") refl (
    hex_then cr2 (
      text_then (codes " eip=0x") refl (
        hex_then eip (
          text_then (codes " err=0x") refl (
            hex_then error (
              mode_then (bit_and error 4 == 0) (
                text_then (codes "\n    cr3=0x") refl
                  (hex_then cr3 (record { clean = ((λ e. omega (arith, e)), tt) })))))))))

-- The text is on the screen in the colour of alarms, and nothing is written elsewhere.
pub record Reported (text : List ℕ) (s out : Screen) : Type 0 where
  pub printed : out ≡ print text (alarm s)
  pub on_screen : IsOnScreen out
  pub outside : (a : ℕ) → Outside a → out.video a ≡ s.video a

report :
    (text : List ℕ) (s out : Screen)
    → out ≡ print text (alarm s)
    → NoTab text
    → IsOnScreen s
    → Reported text s out
report text s out e t o =
    let p =
      print-IsOnScreen text (alarm s)
        (record { x = o.x; y = o.y; kx = o.kx; ky = o.ky; column = o.column; row = o.row }) t in
    record {
      printed = e;
      on_screen = rw e p.0;
      outside = λ a h. ap (λ (x : Screen). x.video a) e ∙ p.1 a h;
    }

-- With the cursor on the screen, `idt_handler_pagefault` stops with a report of the page fault, which
-- leaves the cursor on the screen and everything outside its memory as it was; the four numbers of
-- 32 bits in it read back as the address, the place, the error code and the directory.
pub idt_handler_pagefault_lem :
    (error eip cr2 cr3 : ℕ) (s : Screen)
    → IsOnScreen s
    → error < 2 ^ 32
    → eip < 2 ^ 32
    → cr2 < 2 ^ 32
    → cr3 < 2 ^ 32
    → let out = idt_handler_pagefault error eip cr2 cr3 s in
      (out.0 ≡ stops)
      × Reported (pagefault_text error eip cr2 cr3) s out.1
      × (read_hex 0 (hex_text 8 cr2) ≡ cr2)
      × (read_hex 0 (hex_text 8 eip) ≡ eip)
      × (read_hex 0 (hex_text 8 error) ≡ error)
      × (read_hex 0 (hex_text 8 cr3) ≡ cr3)
idt_handler_pagefault_lem error eip cr2 cr3 s o h1 h2 h3 h4 =
    let e = pagefault_prints error eip cr2 cr3 s in
    (
      ap (λ (p : Ending × Screen). p.0) e,
      report (pagefault_text error eip cr2 cr3) s (idt_handler_pagefault error eip cr2 cr3 s).1
          (ap (λ (p : Ending × Screen). p.1) e) (pagefault-Clean error eip cr2 cr3).clean o,
      read_hex-hex_text cr2 h3,
      read_hex-hex_text eip h2,
      read_hex-hex_text error h1,
      read_hex-hex_text cr3 h4,
    )
