-- ===== src/User/Shell/Line.antt =====
-- The line that is typed.
use pepin_os.Base.{
  ℕ, zero, suc, ◌-◌, ◌≤◌, ◌<◌, ◌≡◌, refl, sym, ap, ◌∙◌, inl, inr, arith, ◌==◌, ltb, false, List, [],
  ◌∷◌, ◌++◌, if◌then◌else◌, update, length, Bool-cases,
}
use pepin_os.Base.Text.{bytes_of}
use pepin_os.User.Shell.{Editor, is_enter, is_erase, edit}

-- What the buffer holds before the position.
abbrev pub typed : Editor → List ℕ
typed e = bytes_of e.pos e.line

-- A text without its last byte.
unfoldable pub drop_last : List ℕ → List ℕ
drop_last [] = []
drop_last (c ∷ []) = []
drop_last (c ∷ d ∷ cs) = c ∷ drop_last (d ∷ cs)

-- What a key other than Enter makes of a text.
unfoldable pub type_key : ℕ → List ℕ → List ℕ
type_key c text =
    if c == 0
    then text
    else if is_erase c
    then drop_last text
    else if ltb (length text) 127
    then text ++ (c ∷ [])
    else text

-- What a list of keys makes of it.
unfoldable pub type_keys : List ℕ → List ℕ → List ℕ
type_keys [] text = text
type_keys (c ∷ cs) text = type_keys cs (type_key c text)

pub length-bytes_of : (n : ℕ) (f : ℕ → ℕ) → length (bytes_of n f) ≡ n
length-bytes_of zero f = refl
length-bytes_of (suc n) f = ap suc (length-bytes_of n (λ j. f (suc j)))

bytes_of-suc : (n : ℕ) (f : ℕ → ℕ) → bytes_of (suc n) f ≡ bytes_of n f ++ (f n ∷ [])
bytes_of-suc zero f = refl
bytes_of-suc (suc n) f = ap (λ (l : List ℕ). f 0 ∷ l) (bytes_of-suc n (λ j. f (suc j)))

-- Texts depend on the bytes before their end only.
pub bytes_of-same :
    (n : ℕ) (f g : ℕ → ℕ) → ((i : ℕ) → i < n → f i ≡ g i) → bytes_of n f ≡ bytes_of n g
bytes_of-same zero f g h = refl
bytes_of-same (suc n) f g h =
    ap (λ (c : ℕ). c ∷ bytes_of n (λ j. f (suc j))) (h 0 (omega arith))
    ∙ ap (λ (l : List ℕ). g 0 ∷ l)
        (bytes_of-same n (λ j. f (suc j)) (λ j. g (suc j)) (λ i b. h (suc i) (omega arith)))

drop_last-bytes_of : (n : ℕ) (f : ℕ → ℕ) → drop_last (bytes_of (suc n) f) ≡ bytes_of n f
unfolding drop_last
drop_last-bytes_of zero f = refl
drop_last-bytes_of (suc n) f = ap (λ (l : List ℕ). f 0 ∷ l) (drop_last-bytes_of n (λ j. f (suc j)))

erased : (f : ℕ → ℕ) (n : ℕ) → bytes_of (if ltb 0 n then n - 1 else n) f ≡ drop_last (bytes_of n f)
unfolding drop_last
erased f zero = refl
erased f (suc n) = ap (λ (k : ℕ). bytes_of k f) (ground arith) ∙ sym (drop_last-bytes_of n f)

written : (f : ℕ → ℕ) (n c : ℕ) → bytes_of (suc n) (update f n c) ≡ bytes_of n f ++ (c ∷ [])
written f n c =
    bytes_of-suc n (update f n c)
    ∙ ap (λ (l : List ℕ). l ++ (update f n c n ∷ []))
        (bytes_of-same n (update f n c) f (λ i h. ground arith))
    ∙ ap (λ (b : ℕ). bytes_of n f ++ (b ∷ [])) (ground arith)

-- A key changes the buffer and the position as it changes the text, and the position stays in
-- the buffer.
pub edit-typed :
    (c : ℕ) (e : Editor)
    → is_enter c ≡ false
    → e.pos ≤ 127
    → (typed (edit c e) ≡ type_key c (typed e)) × ((edit c e).pos ≤ 127)
unfolding edit type_key
edit-typed c e h b = elim (Bool-cases (c == 0)) [
  | inl null ↦ rw null (refl, b)
  | inr char ↦ elim (Bool-cases (is_erase c)) [
    | inl erase ↦ elim (Bool-cases (ltb 0 e.pos)) [
      | inl some_left ↦
          let old = erased e.line e.pos in
          rw (char, h, erase, some_left) (rw some_left at old, omega arith)
      | inr empty ↦ let old = erased e.line e.pos in rw (char, h, erase, empty) (rw empty at old, b)
    ]
    | inr other ↦ elim (Bool-cases (ltb e.pos 127)) [
      | inl room ↦
          rw (char, h, other, length-bytes_of e.pos e.line, room)
            (written e.line e.pos c, ground arith)
      | inr full ↦ rw (char, h, other, length-bytes_of e.pos e.line, full) (refl, b)
    ]
  ]
]
