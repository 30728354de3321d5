-- ===== src/Drivers/Keyboard/Handler.antt =====
-- What one interrupt of the keyboard does.
use pepin_os.Base.{
  [], ◌∷◌, ◌++◌, length, ltb, ltb→lt, ℕ, ◌<◌, ◌≡◌, refl, ap, ◌∙◌, ◌≢◌, ◌⊎◌, inl, inr, arith, ◌==◌,
  bit_and, true, not, ◌&&◌, Option, none, some, if◌then◌else◌, Bool-cases,
}
use pepin_os.Base.Bits.Masks.{bit_and-pow_test}
use pepin_os.Base.Bits.{bit}
use pepin_os.Base.Int.{pos}
use pepin_os.Process.Sched.{sched_signal}
use pepin_os.Drivers.Keyboard.Buffer.{IsValid, contents, enqueue_lem}
use pepin_os.Drivers.Keyboard.{Console, key_char, keyboard_handler, interrupt, type_char, enqueue}

-- What an interrupt may do.
pub record Handled (scancode : ℕ) (k k' : Console) : Type 0 where
  pub valid : IsValid k.keyboard → IsValid k'.keyboard
  pub queue :
      IsValid k.keyboard
      → (contents k'.keyboard ≡ contents k.keyboard)
        ⊎ ((c : ℕ) × (key_char scancode ≡ some c)
            × (c ≢ 0)
            × (length (contents k.keyboard) < 63)
            × (contents k'.keyboard ≡ contents k.keyboard ++ (c ∷ [])))
  pub sched :
      (k'.sched ≡ k.sched)
      ⊎ ((k'.sched ≡ sched_signal (pos 2) k.sched)
          × (k.keyboard.ctrl_held ≢ 0)
          × (key_char scancode ≡ some b'c'))

-- Pressing a key with the character `c`, which is neither a control key nor without a character.
pub record IsTyped (scancode c : ℕ) : Type 0 where
  pub known : key_char scancode ≡ some c
  pub printed : c ≢ 0
  pub plain : scancode ≢ 0x1D
  pub pressed : scancode < 0x80

pressed_test : (scancode : ℕ) → scancode < 0x80 → (bit_and scancode 0x80 == 0) ≡ true
unfolding bit
pressed_test s h = bit_and-pow_test 7 s ∙ ground arith

pub keyboard_handler_typed :
    (scancode c : ℕ) (k : Console)
    → IsTyped scancode c
    → keyboard_handler scancode k
      ≡ (if not (k.keyboard.ctrl_held == 0) && (c == b'c') then interrupt k else type_char c k)
unfolding keyboard_handler
keyboard_handler_typed scancode c k t =
    ground (arith, pressed_test scancode t.pressed, t.known, t.printed, t.plain)

pub keyboard-type_char : (c : ℕ) (k : Console) → (type_char c k).keyboard ≡ enqueue c k.keyboard
unfolding type_char
keyboard-type_char c k = refl

queued :
    (scancode c : ℕ) (k : Console)
    → key_char scancode ≡ some c
    → c ≢ 0
    → IsValid k.keyboard
    → (contents (enqueue c k.keyboard) ≡ contents k.keyboard)
      ⊎ ((c' : ℕ) × (key_char scancode ≡ some c')
          × (c' ≢ 0)
          × (length (contents k.keyboard) < 63)
          × (contents (enqueue c k.keyboard) ≡ contents k.keyboard ++ (c' ∷ [])))
queued scancode c k e ne v =
    let now = (enqueue_lem c k.keyboard v).1 in
    elim (Bool-cases (ltb (length (contents k.keyboard)) 63)) [
      | inl room ↦ inr (c, e, ne, ltb→lt (length (contents k.keyboard)) 63 room, now ∙ rw room refl)
      | inr full ↦ inl (now ∙ rw full refl)
    ]

keyboard_handler_key :
    (scancode c : ℕ) (k : Console)
    → key_char scancode ≡ some c
    → c ≢ 0
    → Handled scancode k
        (if not (k.keyboard.ctrl_held == 0) && (c == b'c') then interrupt k else type_char c k)
unfolding interrupt type_char
keyboard_handler_key scancode c k e ne =
    elim (Bool-cases (not (k.keyboard.ctrl_held == 0) && (c == b'c'))) [
      | inl stop ↦ rw stop (record {
        valid = λ v. v;
        queue = λ v. inl refl;
        sched = inr (refl, ground arith, e ∙ ap some (ground arith));
      })
      | inr typed ↦ rw typed (record {
        valid = λ v. (enqueue_lem c k.keyboard v).0;
        queue = λ v. queued scancode c k e ne v;
        sched = inl refl;
      })
    ]

unchanged :
    (scancode : ℕ) (k : Console) (ctrl : ℕ)
    → Handled scancode k (record k { keyboard = record (k.keyboard) { ctrl_held = ctrl } })
unchanged scancode k ctrl = record {
  valid = λ v. record { head = v.head; tail = v.tail };
  queue = λ v. inl refl;
  sched = inl refl;
}

keyboard_handler_char :
    (scancode : ℕ) (k : Console) (o : Option ℕ)
    → key_char scancode ≡ o
    → Handled scancode k (elim o [
      | none ↦ k
      | some c ↦
          if c == 0
          then k
          else if not (k.keyboard.ctrl_held == 0) && (c == b'c')
          then interrupt k
          else type_char c k
    ])
keyboard_handler_char scancode k none e = unchanged scancode k k.keyboard.ctrl_held
keyboard_handler_char scancode k (some c) e = elim (Bool-cases (c == 0)) [
  | inl blank ↦ rw blank (unchanged scancode k k.keyboard.ctrl_held)
  | inr printed ↦ rw printed (keyboard_handler_key scancode c k e (ground arith))
]

-- Whatever key is pressed or released, a valid ring buffer stays valid and its queue stays as it is or,
-- if it has fewer than 63 characters, gets the character of the key at its end, and the scheduler is
-- as it was, or has been sent SIGINT for a key with the character c while Ctrl is held.
pub keyboard_handler-Handled :
    (scancode : ℕ) (k : Console) → Handled scancode k (keyboard_handler scancode k)
unfolding keyboard_handler
keyboard_handler-Handled scancode k = elim (Bool-cases (scancode == 0x1D)) [
  | inl down ↦ rw down (unchanged scancode k 1)
  | inr other ↦ rw other (elim (Bool-cases (scancode == 0x9D)) [
    | inl up ↦ rw up (unchanged scancode k 0)
    | inr key ↦ rw key (elim (Bool-cases (bit_and scancode 0x80 == 0)) [
      | inl pressed ↦ rw pressed (keyboard_handler_char scancode k (key_char scancode) refl)
      | inr released ↦ rw released (unchanged scancode k k.keyboard.ctrl_held)
    ])
  ])
]
