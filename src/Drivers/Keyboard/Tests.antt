-- ===== src/Drivers/Keyboard/Tests.antt =====
-- Typing on a console whose ring buffer is about to go round.
use pepin_os.Base.{◌≡◌, refl, arith, ◌==◌, [], ◌∷◌, if◌then◌else◌}
use pepin_os.Base.Int.{pos}
use pepin_os.Process.Task.{closed}
use pepin_os.Process.Sched.{empty}
use pepin_os.Drivers.Keyboard.{Keyboard, Console, key_char, keyboard_handler}
use pepin_os.Drivers.Keyboard.Handler.{Handled, keyboard_handler-Handled}
use pepin_os.Drivers.Keyboard.Typing.{key_presses, read_all, read_all-key_presses}

-- Two characters in the places 63 and 0.
abbrev typed : Keyboard
typed = record {
  kb_buf = λ i. if i == 63 then b'l' else b's';
  kb_head = 1;
  kb_tail = 63;
  ctrl_held = 0;
}

abbrev idle : Keyboard
idle = record { kb_buf = λ _. 0; kb_head = 63; kb_tail = 63; ctrl_held = 0 }

abbrev console : Keyboard → Console
console k = record {
  keyboard = k;
  screen = record { video = λ _. 0; kx = pos 0; ky = pos 0; kattr = 7; cursor = 0 };
  sched =
      empty (record { next = λ _. 0; prev = λ _. 0 })
        (λ _. record {
          regs = λ _. 0;
          cr3 = 0;
          kstack_top = 0;
          active = 0;
          files = λ _. closed;
          sig_pending = 0;
          sig_handlers = λ _. 0;
          sig_saved_regs = λ _. 0;
          sig_in_handler = 0;
        });
}

keyboard_handler-Handled_example :
    Handled 0x2E (console typed) (keyboard_handler 0x2E (console typed))
keyboard_handler-Handled_example = keyboard_handler-Handled 0x2E (console typed)

-- The keys l, s and Enter.
read_all-key_presses_example :
    read_all 4 (key_presses (0x26 ∷ 0x1F ∷ 0x1C ∷ []) (console idle)).keyboard
    ≡ b'l' ∷ b's' ∷ 10 ∷ []
unfolding key_char
read_all-key_presses_example =
    read_all-key_presses (0x26 ∷ 0x1F ∷ 0x1C ∷ []) (b'l' ∷ b's' ∷ 10 ∷ []) (console idle)
      (
        record { known = refl; printed = omega arith; plain = omega arith; pressed = omega arith },
        (
          record {
            known = refl;
            printed = omega arith;
            plain = omega arith;
            pressed = omega arith;
          },
          (
            record {
              known = refl;
              printed = omega arith;
              plain = omega arith;
              pressed = omega arith;
            },
            tt,
          ),
        ),
      )
      (record { head = omega arith; tail = omega arith }) refl refl (omega arith)
