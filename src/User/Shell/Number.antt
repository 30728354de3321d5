-- ===== src/User/Shell/Number.antt =====
-- Reading a decimal number.
use pepin_os.Base.{
  ℕ, zero, suc, ◌+◌, ◌*◌, ◌/◌, ◌%◌, ◌^◌, ◌<◌, ◌≡◌, refl, sym, ap, ◌∙◌, inl, inr, arith, ◌==◌, ltb,
  leb, Bool, true, false, not, ◌&&◌, List, [], ◌∷◌, ◌++◌, if◌then◌else◌, Bool-cases,
}
use mathlib.Core.List.{append_assoc, append-nil}
use native.Mathlib.Nat.{pow-suc}
use pepin_os.Base.Text.{codes}
use pepin_os.Base.Int.{pos, ltb_ℤ, signed32}
use pepin_os.User.Shell.{
  Program, atoi_from, str_atoi, str_eq, str_starts, str_skip_word, skip_to_space, skip_spaces,
  cmd_raise, execute,
}

-- The decimal digits of `n`, at most `f` + 1 of them.
pub decimal : ℕ → ℕ → List ℕ
decimal zero n = (48 + n % 10) ∷ []
decimal (suc f) n = if ltb n 10 then (48 + n) ∷ [] else decimal f (n / 10) ++ ((48 + n % 10) ∷ [])

-- A text that does not go on with a digit.
pub stops : List ℕ → Bool
stops [] = true
stops (c ∷ cs) = not (leb 48 c && leb c 57)

one_digit :
    (acc d : ℕ) (rest : List ℕ)
    → d < 10
    → atoi_from acc ((48 + d) ∷ rest) ≡ atoi_from ((acc * 10 + d) % 2 ^ 32) rest
unfolding atoi_from
one_digit acc d rest h =
    let low : leb 48 (48 + d) ≡ true = ground arith in
    let high : leb (48 + d) 57 ≡ true = ground arith in
    rw (low, high) (ap (λ (w : ℕ). atoi_from w rest) (omega arith))

atoi_from-decimal :
    (f n : ℕ) (rest : List ℕ)
    → n < 10 ^ suc f
    → atoi_from 0 (decimal f n ++ rest) ≡ atoi_from (n % 2 ^ 32) rest
unfolding decimal
atoi_from-decimal zero n rest h =
    one_digit 0 (n % 10) rest (omega arith) ∙ ap (λ (w : ℕ). atoi_from w rest) (omega (arith, h))
atoi_from-decimal (suc f) n rest h = elim (Bool-cases (ltb n 10)) [
  | inl small ↦
      rw small (one_digit 0 n rest (ground arith) ∙ ap (λ (w : ℕ). atoi_from w rest) (omega arith))
  | inr large ↦ rw large (
      ap (atoi_from 0) (append_assoc (decimal f (n / 10)) ((48 + n % 10) ∷ []) rest)
      ∙ atoi_from-decimal f (n / 10) ((48 + n % 10) ∷ rest) (omega (arith, h, pow-suc 10 (suc f)))
      ∙ one_digit (n / 10 % 2 ^ 32) (n % 10) rest (omega arith)
      ∙ ap (λ (w : ℕ). atoi_from w rest) (omega arith))
]

atoi_from-stops : (n : ℕ) (rest : List ℕ) → stops rest ≡ true → atoi_from n rest ≡ n
unfolding atoi_from stops
atoi_from-stops n [] e = refl
atoi_from-stops n (c ∷ cs) e = ground (arith, e)

-- `str_atoi` reads the decimal digits of a number below 2^32 back, whatever follows that is not a digit.
pub str_atoi-decimal :
    (n : ℕ) (rest : List ℕ) → n < 2 ^ 32 → stops rest ≡ true → str_atoi (decimal 9 n ++ rest) ≡ n
unfolding str_atoi atoi_from stops
str_atoi-decimal n rest h e =
    atoi_from-decimal 9 n rest (omega arith)
    ∙ ap (λ (w : ℕ). atoi_from w rest) (omega arith)
    ∙ atoi_from-stops n rest e

decimal-head : (f n : ℕ) → (d : ℕ) × (ds : List ℕ) × (decimal f n ≡ (48 + d) ∷ ds) × (d < 10)
unfolding decimal
decimal-head zero n = (n % 10, [], refl, omega arith)
decimal-head (suc f) n =
    let (d, ds, e, h) = decimal-head f (n / 10) in
    elim (Bool-cases (ltb n 10)) [
      | inl small ↦ (n, [], rw small refl, ground arith)
      | inr large ↦ (
        d,
        ds ++ ((48 + n % 10) ∷ []),
        rw large (ap (λ (l : List ℕ). l ++ ((48 + n % 10) ∷ [])) e),
        h,
      )
    ]

raise_number :
    (d : ℕ) (ds : List ℕ) (n : ℕ)
    → str_atoi ((48 + d) ∷ ds) ≡ n
    → 0 < n
    → n < 2 ^ 31
    → cmd_raise ((48 + d) ∷ ds)
      ≡ Program.sys_setcolor 0x07 (
          Program.sys_print (codes "Enviando senal ") (
            Program.sys_print
              ((48 + d) ∷ ds)
              (Program.sys_print (codes "...\n") (Program.sys_kill (pos n) Program.done))))
unfolding cmd_raise
raise_number d ds n value lo hi =
    let signed : signed32 n ≡ pos n = ground arith in
    let positive : ltb_ℤ (pos 0) (pos n) ≡ true = ground arith in rw (value, signed, positive) refl

skip_raise :
    (d : ℕ) (ds : List ℕ) → str_skip_word (codes "raise " ++ ((48 + d) ∷ ds)) ≡ (48 + d) ∷ ds
unfolding str_skip_word skip_to_space skip_spaces
skip_raise d ds = let digit : 48 + d == 32 ≡ false = ground arith in rw digit refl

-- The line `raise` with the decimal digits of a number above 0 and below 2^31 sends the signal of
-- that number.
execute-raise :
    (n : ℕ)
    → 0 < n
    → n < 2 ^ 31
    → execute (codes "raise " ++ decimal 9 n)
      ≡ Program.sys_setcolor 0x07 (
          Program.sys_print (codes "Enviando senal ") (
            Program.sys_print
              (decimal 9 n)
              (Program.sys_print (codes "...\n") (Program.sys_kill (pos n) Program.done))))
unfolding execute str_eq str_starts stops
execute-raise n lo hi =
    let (d, ds, e, h) = decimal-head 9 n in
    let value : str_atoi (decimal 9 n) ≡ n =
      ap str_atoi (sym (append-nil (decimal 9 n))) ∙ str_atoi-decimal n [] (omega arith) refl in
    rw e (rw (skip_raise d ds) (raise_number d ds n (rw e at value) lo hi))
