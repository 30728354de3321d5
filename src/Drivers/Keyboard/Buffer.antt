-- ===== src/Drivers/Keyboard/Buffer.antt =====
-- The ring buffer as a queue of at most 63 characters.
use pepin_os.Base.{
  ℕ, zero, suc, ◌+◌, ◌-◌, ◌%◌, ◌<◌, ◌≡◌, refl, ap, ◌∙◌, ◌≢◌, ◌⊎◌, inl, inr, arith, ◌==◌, ltb, true,
  false, List, [], ◌∷◌, ◌++◌, if◌then◌else◌, update, length, Bool-cases,
}
use pepin_os.Drivers.Keyboard.{Keyboard, kb_getchar, enqueue}

pub record IsValid (k : Keyboard) : Type 0 where
  pub head : k.kb_head < 64
  pub tail : k.kb_tail < 64

-- The `n` characters from the place `h` on, going round at 64.
abbrev pub window : (ℕ → ℕ) → ℕ → ℕ → List ℕ
window buf h zero = []
window buf h (suc n) = buf h ∷ window buf ((h + 1) % 64) n

abbrev pub count : Keyboard → ℕ
count k = (k.kb_head + 64 - k.kb_tail) % 64

-- The queue that the buffer holds, oldest first.
abbrev pub contents : Keyboard → List ℕ
contents k = window k.kb_buf k.kb_tail (count k)

length-window : (buf : ℕ → ℕ) (h n : ℕ) → length (window buf h n) ≡ n
length-window buf h zero = refl
length-window buf h (suc n) = ap suc (length-window buf ((h + 1) % 64) n)

pub length-contents : (k : Keyboard) → length (contents k) ≡ count k
length-contents k = length-window k.kb_buf k.kb_tail (count k)

window-write :
    (buf : ℕ → ℕ) (c n h i : ℕ)
    → h < 64
    → n < 64
    → i ≡ (h + n) % 64
    → window (update buf i c) h (suc n) ≡ window buf h n ++ (c ∷ [])
window-write buf c zero h i hh hn e = ground arith
window-write buf c (suc n) h i hh hn e =
    let rest = window-write buf c n ((h + 1) % 64) i (omega arith) (omega arith) (omega arith) in
    let other : update buf i c h ≡ buf h = ground arith in cc (other, rest)

window_of_ne_zero :
    (buf : ℕ → ℕ) (h n : ℕ) → n ≢ 0 → window buf h n ≡ buf h ∷ window buf ((h + 1) % 64) (n - 1)
window_of_ne_zero buf h zero ne = absurd (ne refl)
window_of_ne_zero buf h (suc n) ne = ap (λ m. window buf h (suc m)) (omega arith)

-- `kb_getchar` returns 0 and changes nothing if the queue is empty, and takes the oldest character
-- if it is not.
pub kb_getchar_lem :
    (k : Keyboard)
    → IsValid k
    → IsValid (kb_getchar k).1
      × (((contents k ≡ []) × (kb_getchar k ≡ (0, k)))
          ⊎ (contents k ≡ (kb_getchar k).0 ∷ contents (kb_getchar k).1))
unfolding kb_getchar
kb_getchar_lem k v = elim (Bool-cases (k.kb_head == k.kb_tail)) [
  | inl same ↦
      let none_left : count k ≡ 0 = ground arith in
      (rw same v, inl (ap (window k.kb_buf k.kb_tail) none_left, rw same))
  | inr apart ↦
      let fewer : (k.kb_head + 64 - (k.kb_tail + 1) % 64) % 64 ≡ count k - 1 = ground arith in
      (
        rw apart (record { head = v.head; tail = omega arith }),
        inr (rw (apart, fewer) (window_of_ne_zero k.kb_buf k.kb_tail (count k) (ground arith))),
      )
]

-- `keyboard_handler` queues a character behind the others if there are fewer than 63, and drops it
-- if there are not.
pub enqueue_lem :
    (c : ℕ) (k : Keyboard)
    → IsValid k
    → IsValid (enqueue c k)
      × (contents (enqueue c k)
          ≡ (if ltb (length (contents k)) 63 then contents k ++ (c ∷ []) else contents k))
unfolding enqueue
enqueue_lem c k v = elim (Bool-cases ((k.kb_head + 1) % 64 == k.kb_tail)) [
  | inl full ↦
      let all : ltb (length (contents k)) 63 ≡ false = ground (arith, length-contents k) in
      rw (full, all) (v, refl)
  | inr room ↦
      let some_room : ltb (length (contents k)) 63 ≡ true = ground (arith, length-contents k) in
      let more : ((k.kb_head + 1) % 64 + 64 - k.kb_tail) % 64 ≡ suc (count k) = ground arith in
      rw (room, some_room)
        (
          record { head = omega arith; tail = v.tail },
          ap (window (update k.kb_buf k.kb_head c) k.kb_tail) more
              ∙ window-write k.kb_buf c (count k) k.kb_tail k.kb_head v.tail (omega arith)
                  (ground arith),
        )
]
