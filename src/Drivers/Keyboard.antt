-- ===== src/Drivers/Keyboard.antt =====
-- drivers/keyboard.c: the ring buffer of typed characters, and the handler of the keyboard's
-- interrupt, which echoes to the screen and sends SIGINT to the current task.
pub mod Buffer
pub mod Handler
pub mod Typing
mod Tests
use pepin_os.Base.{
  ℕ, zero, suc, ◌+◌, ◌-◌, ◌*◌, ◌/◌, ◌%◌, ◌^◌, ◌≤◌, ◌<◌, ◌≡◌, refl, sym, ap, ◌∙◌, ◌≢◌, ◌⊎◌, inl, inr,
  arith, ◌==◌, ltb, leb, min, max, bit_and, bit_or, Bool, true, false, not, ◌&&◌, ◌||◌, Option,
  none, some, List, [], ◌∷◌, ◌++◌, map, if◌then◌else◌, for_range, update, for_range-update,
  update_self, length, get_elem?, length-append, Bool-cases, Option-cases, u32_mod, add32, sub32,
  mul32, shl32, shl32-one, pow-lt-u32, ltb→lt, lt→ltb, ltb→le, ==_iff,
}
use pepin_os.Base.Int.{pos}
use pepin_os.Drivers.Screen.{Screen, putcar}
use pepin_os.Process.Sched.{Sched, sched_signal}

abbrev pub kb_buf_size : ℕ
kb_buf_size = 64

pub record Keyboard : Type 0 where
  pub kb_buf : ℕ → ℕ
  pub kb_head : ℕ
  pub kb_tail : ℕ
  pub ctrl_held : ℕ

-- The next character, 0 if the buffer is empty.
pub kb_getchar : Keyboard → ℕ × Keyboard
kb_getchar k =
    if k.kb_head == k.kb_tail
    then (0, k)
    else (k.kb_buf k.kb_tail, record k { kb_tail = (k.kb_tail + 1) % kb_buf_size })

-- The character of each scancode, 0 if it has none.
abbrev pub kbmap : List ℕ
kbmap =
    0 ∷ 0 ∷ b'1' ∷ b'2' ∷ b'3' ∷ b'4' ∷ b'5' ∷ b'6' ∷ b'7' ∷ b'8' ∷ b'9' ∷ b'0' ∷ b'-' ∷ b'=' ∷ 0
    ∷ 0 ∷ b'q' ∷ b'w' ∷ b'e' ∷ b'r' ∷ b't' ∷ b'y' ∷ b'u' ∷ b'i' ∷ b'o' ∷ b'p' ∷ b'[' ∷ b']' ∷ 10 ∷ 0
    ∷ b'a' ∷ b's' ∷ b'd' ∷ b'f' ∷ b'g' ∷ b'h' ∷ b'j' ∷ b'k' ∷ b'l' ∷ b';' ∷ 39 ∷ b'`' ∷ 0 ∷ 92
    ∷ b'z' ∷ b'x' ∷ b'c' ∷ b'v' ∷ b'b' ∷ b'n' ∷ b'm' ∷ b',' ∷ b'.' ∷ b'/' ∷ 0 ∷ b'*' ∷ 0 ∷ b' ' ∷ 0
    ∷ 0 ∷ 0 ∷ 0 ∷ 0 ∷ 0 ∷ 0 ∷ 0 ∷ 0 ∷ 0 ∷ 0 ∷ 0 ∷ 0 ∷ b'7' ∷ b'8' ∷ b'9' ∷ b'-' ∷ b'4' ∷ b'5' ∷ b'6'
    ∷ b'+' ∷ b'1' ∷ b'2' ∷ b'3' ∷ b'0' ∷ b'.' ∷ 0 ∷ 0 ∷ 0 ∷ 0 ∷ []

-- `kbmap[scancode]`, with the test against KBMAP_SIZE before it: `none` beyond the table.
pub key_char : ℕ → Option ℕ
key_char scancode = get_elem? kbmap scancode

-- The queueing at the end of the handler. A full buffer drops the character.
pub enqueue : ℕ → Keyboard → Keyboard
enqueue c k =
    let next = (k.kb_head + 1) % kb_buf_size in
    if next == k.kb_tail
    then k
    else record k { kb_buf = update k.kb_buf k.kb_head c; kb_head = next }

-- What the handler works on.
pub record Console : Type 0 where
  pub keyboard : Keyboard
  pub screen : Screen
  pub sched : Sched

abbrev pub colour : ℕ → Screen → Screen
colour attr s = record s { kattr = attr }

-- Ctrl+C.
pub interrupt : Console → Console
interrupt k = record k {
  screen = putcar 10 (putcar b'C' (putcar b'^' (colour 0x0C k.screen)));
  sched = sched_signal (pos 2) k.sched;
}

pub type_char : ℕ → Console → Console
type_char c k = record k {
  keyboard = enqueue c k.keyboard;
  screen = putcar c (colour 0x0F k.screen);
}

-- `keyboard_handler`, with the byte that `inb` reads from the keyboard's port.
pub keyboard_handler : ℕ → Console → Console
keyboard_handler scancode k =
    if scancode == 0x1D
    then record k { keyboard = record (k.keyboard) { ctrl_held = 1 } }
    else if scancode == 0x9D
    then record k { keyboard = record (k.keyboard) { ctrl_held = 0 } }
    else if not (bit_and scancode 0x80 == 0)
    then k
    else elim (key_char scancode) [
      | none ↦ k
      | some c ↦
          if c == 0
          then k
          else if not (k.keyboard.ctrl_held == 0) && (c == b'c')
          then interrupt k
          else type_char c k
    ]
