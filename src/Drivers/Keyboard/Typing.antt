-- ===== src/Drivers/Keyboard/Typing.antt =====
-- Typing, and reading what was typed.
use pepin_os.Base.{
  ℕ, zero, suc, ◌+◌, ◌≤◌, ◌<◌, ◌≡◌, sym, ap, ◌∙◌, inl, inr, arith, ◌==◌, List, [], ◌∷◌, ◌++◌,
  if◌then◌else◌, length, length-append, lt→ltb,
}
use mathlib.Core.Path.{subst}
use mathlib.Core.List.{append_assoc, append-nil}
use pepin_os.Drivers.Keyboard.{Keyboard, Console, kb_getchar, keyboard_handler, type_char, enqueue}
use pepin_os.Drivers.Keyboard.Buffer.{IsValid, contents, enqueue_lem, kb_getchar_lem}
use pepin_os.Drivers.Keyboard.Handler.{IsTyped, keyboard_handler_typed, keyboard-type_char}

-- An interrupt for each scancode, in order.
pub key_presses : List ℕ → Console → Console
key_presses [] k = k
key_presses (s ∷ ss) k = key_presses ss (keyboard_handler s k)

-- `kb_getchar` until it returns 0, at most `fuel` times.
pub read_all : ℕ → Keyboard → List ℕ
read_all zero k = []
read_all (suc fuel) k =
    let rest = read_all fuel (kb_getchar k).1 in
    if (kb_getchar k).0 == 0 then [] else (kb_getchar k).0 ∷ rest

-- The characters of the keys, in order.
abbrev pub Types : List ℕ → List ℕ → Type 0
Types [] [] = Unit
Types [] (c ∷ cs) = ⊥
Types (s ∷ ss) [] = ⊥
Types (s ∷ ss) (c ∷ cs) = IsTyped s c × Types ss cs

ctrl-enqueue : (c : ℕ) (k : Keyboard) → (enqueue c k).ctrl_held ≡ k.ctrl_held
unfolding enqueue
ctrl-enqueue c k = ground arith

type_one :
    (s c : ℕ) (k : Console)
    → IsTyped s c
    → IsValid k.keyboard
    → k.keyboard.ctrl_held ≡ 0
    → length (contents k.keyboard) < 63
    → let k' = (keyboard_handler s k).keyboard in
      IsValid k' × (k'.ctrl_held ≡ 0) × (contents k' ≡ contents k.keyboard ++ (c ∷ []))
type_one s c k t v free room =
    let e : keyboard_handler s k ≡ type_char c k =
      keyboard_handler_typed s c k t ∙ ground (arith, free) in
    let queued : (keyboard_handler s k).keyboard ≡ enqueue c k.keyboard =
      ap (λ (q : Console). q.keyboard) e ∙ keyboard-type_char c k in
    let done = enqueue_lem c k.keyboard v in
    let short = lt→ltb (length (contents k.keyboard)) 63 room in
    (
      subst IsValid (sym queued) done.0,
      ap (λ (q : Keyboard). q.ctrl_held) queued ∙ ctrl-enqueue c k.keyboard ∙ free,
      ap contents queued
          ∙ done.1
          ∙ ap (λ b. if b then contents k.keyboard ++ (c ∷ []) else contents k.keyboard) short,
    )

type_all :
    (ss cs : List ℕ) (k : Console)
    → Types ss cs
    → IsValid k.keyboard
    → k.keyboard.ctrl_held ≡ 0
    → length (contents k.keyboard) + length cs ≤ 63
    → let k' = (key_presses ss k).keyboard in IsValid k' × (contents k' ≡ contents k.keyboard ++ cs)
unfolding key_presses
type_all [] [] k t v free room = (v, sym (append-nil _))
type_all [] (c ∷ cs) k t v free room = absurd t
type_all (s ∷ ss) [] k t v free room = absurd t
type_all (s ∷ ss) (c ∷ cs) k t v free room =
    let one = type_one s c k t.0 v free (omega arith) in
    let rest =
      type_all ss cs (keyboard_handler s k) t.1 one.0 one.1
        (omega (arith, ap length one.2, length-append (contents k.keyboard) (c ∷ []))) in
    (rest.0, rest.1 ∙ ap (λ xs. xs ++ cs) one.2 ∙ append_assoc (contents k.keyboard) (c ∷ []) cs)

read_contents :
    (ss cs : List ℕ) (k : Keyboard)
    → Types ss cs
    → IsValid k
    → contents k ≡ cs
    → read_all (suc (length cs)) k ≡ cs
unfolding read_all
read_contents [] [] k t v e = elim (kb_getchar_lem k v).1 [
  | inl (gone, same) ↦ ground (arith, same)
  | inr more ↦ cc (e, more)
]
read_contents [] (c ∷ cs) k t v e = absurd t
read_contents (s ∷ ss) [] k t v e = absurd t
read_contents (s ∷ ss) (c ∷ cs) k t v e = elim (kb_getchar_lem k v).1 [
  | inl (gone, same) ↦ cc (e, gone)
  | inr more ↦
      let head : (kb_getchar k).0 ≡ c = cc (e, more) in
      let tail : contents (kb_getchar k).1 ≡ cs = cc (e, more) in
      let rest = read_contents ss cs (kb_getchar k).1 t.1 (kb_getchar_lem k v).0 tail in
      ground (arith, head, rest, t.0.printed)
]

-- What is typed is read back: up to 63 keys that have a character, pressed while the buffer is
-- empty and Ctrl is up, are read by `kb_getchar` as their characters, in order and then 0.
pub read_all-key_presses :
    (ss cs : List ℕ) (k : Console)
    → Types ss cs
    → IsValid k.keyboard
    → k.keyboard.ctrl_held ≡ 0
    → contents k.keyboard ≡ []
    → length cs ≤ 63
    → read_all (suc (length cs)) (key_presses ss k).keyboard ≡ cs
read_all-key_presses ss cs k t v free empty short =
    let typed = type_all ss cs k t v free (omega (arith, ap length empty)) in
    read_contents ss cs (key_presses ss k).keyboard t typed.0 (typed.1 ∙ ap (λ xs. xs ++ cs) empty)
