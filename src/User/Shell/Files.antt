-- ===== src/User/Shell/Files.antt =====
-- The files that the shell has open.
use pepin_os.Base.{
  ℕ, zero, suc, ◌<◌, ◌≡◌, refl, sym, inl, inr, arith, ◌==◌, ltb, Bool, true, false, not, ◌&&◌, List,
  [], ◌∷◌, if◌then◌else◌, Bool-cases,
}
use mathlib.Core.Path.{subst}
use pepin_os.Base.Text.{codes}
use pepin_os.Base.Int.{ℤ, pos, negsuc, ltb_ℤ, signed32}
use pepin_os.User.Shell.{
  Program, then_do, str_eq, str_starts, str_skip_word, str_atoi, show_read, cmd_help, cmd_cat,
  cmd_echo, cmd_clear, cmd_raise, unknown, execute, Editor, is_enter, is_erase, edit, text_of,
  prompt, answer, session, welcome, start,
}

-- If no read is answered with more bytes than it asked for, the program reads only from the file that
-- it opened last, no more than the buffer of `size` bytes holds with the 0 behind it, accesses
-- nothing outside its buffer, closes the files in turn, and has none
-- open at its end.
unfoldable pub BalancedIn : (size : ℕ) → List ℤ → Program → Type 0
BalancedIn size fds Program.done = fds ≡ []
BalancedIn size fds (Program.sys_print s p) = BalancedIn size fds p
BalancedIn size fds (Program.sys_setcolor a p) = BalancedIn size fds p
BalancedIn size fds (Program.sys_open s p) =
    (fd : ℤ) → BalancedIn size (if ltb_ℤ fd (pos 0) then fds else fd ∷ fds) (p fd)
BalancedIn size fds (Program.sys_close fd p) =
    (rest : List ℤ) × (fds ≡ fd ∷ rest) × BalancedIn size rest p
BalancedIn size fds (Program.sys_read fd count p) =
    ((rest : List ℤ) × (fds ≡ fd ∷ rest))
    × (count < size)
    × ((n : ℤ) (buf : ℕ → ℕ) → ltb_ℤ (pos count) n ≡ false → BalancedIn size fds (p n buf))
BalancedIn size fds (Program.sys_ls p) = BalancedIn size fds p
BalancedIn size fds (Program.sys_kill sig p) = BalancedIn size fds p
BalancedIn size fds (Program.sys_getchar p) = BalancedIn size fds p
BalancedIn size fds (Program.sys_sigaction sig h p) = BalancedIn size fds p
BalancedIn size fds Program.sys_sigreturn = fds ≡ []
BalancedIn size fds Program.overrun = ⊥

-- The buffer of the shell.
abbrev pub Balanced : List ℤ → Program → Type 0
Balanced = BalancedIn 512

then_do-Balanced :
    (p q : Program) (fds : List ℤ) → Balanced fds p → Balanced [] q → Balanced fds (then_do p q)
unfolding BalancedIn then_do
then_do-Balanced Program.done q fds h g = subst (λ (l : List ℤ). Balanced l q) (sym h) g
then_do-Balanced (Program.sys_print s p) q fds h g = then_do-Balanced p q fds h g
then_do-Balanced (Program.sys_setcolor a p) q fds h g = then_do-Balanced p q fds h g
then_do-Balanced (Program.sys_open s p) q fds h g =
    λ fd. then_do-Balanced (p fd) q (if ltb_ℤ fd (pos 0) then fds else fd ∷ fds) (h fd) g
then_do-Balanced (Program.sys_close fd p) q fds (rest, e, h) g =
    (rest, e, then_do-Balanced p q rest h g)
then_do-Balanced (Program.sys_read fd count p) q fds (o, c, h) g =
    (o, c, λ n buf few. then_do-Balanced (p n buf) q fds (h n buf few) g)
then_do-Balanced (Program.sys_ls p) q fds h g = then_do-Balanced p q fds h g
then_do-Balanced (Program.sys_kill sig p) q fds h g = then_do-Balanced p q fds h g
then_do-Balanced (Program.sys_getchar p) q fds h g = then_do-Balanced p q fds h g
then_do-Balanced (Program.sys_sigaction sig a p) q fds h g = then_do-Balanced p q fds h g
then_do-Balanced Program.sys_sigreturn q fds h g = h
then_do-Balanced Program.overrun q fds h g = h

show_read-Balanced :
    (n : ℤ) (buf : ℕ → ℕ) (fds : List ℤ) (p : Program)
    → ltb_ℤ (pos 511) n ≡ false
    → Balanced fds p
    → Balanced fds (show_read n buf p)
unfolding BalancedIn show_read
show_read-Balanced (negsuc n) buf fds p few h = h
show_read-Balanced (pos zero) buf fds p few h = h
show_read-Balanced (pos (suc n)) buf fds p few h =
    let inside : ltb (suc n) 512 ≡ true = ground (arith, few) in
    elim (Bool-cases (buf n == 10)) [
      | inl ends ↦ rw (inside, ends) h
      | inr open_line ↦ rw (inside, open_line) h
    ]

-- Either of two programs.
either : (P : Program → Type 0) (b : Bool) {p q : Program} → P p → P q → P (if b then p else q)
either P true h g = h
either P false h g = g

cmd_cat-Balanced : (name : List ℕ) → Balanced [] (cmd_cat name)
unfolding BalancedIn cmd_cat
cmd_cat-Balanced [] = refl
cmd_cat-Balanced (c ∷ cs) = λ fd. elim (Bool-cases (ltb_ℤ fd (pos 0))) [
  | inl missing ↦ rw missing refl
  | inr there ↦ rw there (
    ([], refl),
    omega arith,
    λ n buf few.
        show_read-Balanced n buf (fd ∷ []) (Program.sys_close fd Program.done) few ([], refl, refl),
  )
]

cmd_raise-Balanced : (arg : List ℕ) → Balanced [] (cmd_raise arg)
unfolding BalancedIn cmd_raise
cmd_raise-Balanced [] = refl
cmd_raise-Balanced (c ∷ cs) =
    either (Balanced []) (not (ltb_ℤ (pos 0) (signed32 (str_atoi (c ∷ cs))))) refl refl

-- The commands that use no file.
cmd_help-Balanced : Balanced [] cmd_help
unfolding BalancedIn cmd_help
cmd_help-Balanced = refl

cmd_echo-Balanced : (text : List ℕ) → Balanced [] (cmd_echo text)
unfolding BalancedIn cmd_echo
cmd_echo-Balanced text = refl

cmd_clear-Balanced : Balanced [] cmd_clear
unfolding BalancedIn cmd_clear
cmd_clear-Balanced = refl

execute-Balanced : (line : List ℕ) → Balanced [] (execute line)
unfolding execute BalancedIn unknown
execute-Balanced line =
    let arg = str_skip_word line in
    either (Balanced []) (str_eq line (codes "help")) cmd_help-Balanced (
      either (Balanced []) (str_eq line (codes "ls")) refl (
        either (Balanced []) (str_starts line (codes "cat ")) (cmd_cat-Balanced arg) (
          either (Balanced []) (str_eq line (codes "cat")) (cmd_cat-Balanced []) (
            either (Balanced []) (str_starts line (codes "echo ")) (cmd_echo-Balanced arg) (
              either (Balanced []) (str_eq line (codes "echo")) refl (
                either (Balanced []) (str_eq line (codes "clear")) cmd_clear-Balanced (
                  either (Balanced []) (str_starts line (codes "raise ")) (cmd_raise-Balanced arg) (
                    either (Balanced []) (str_eq line (codes "raise")) (cmd_raise-Balanced [])
                      (either (Balanced []) (str_eq line []) refl refl)))))))))

answer-Balanced :
    (c : ℕ) (e : Editor) (next : Program) → Balanced [] next → Balanced [] (answer c e next)
unfolding answer BalancedIn
answer-Balanced c e next h =
    let line = text_of (edit c e) in
    either (Balanced []) (c == 0) h (
      either (Balanced []) (is_enter c)
        (then_do-Balanced (execute line) (prompt next) [] (execute-Balanced line) h)
        (either (Balanced []) (is_erase c && ltb 0 e.pos) h h))

session-Balanced : (cs : List ℕ) (e : Editor) → Balanced [] (session cs e)
unfolding session BalancedIn
session-Balanced [] e = refl
session-Balanced (c ∷ cs) e =
    answer-Balanced c e (session cs (edit c e)) (session-Balanced cs (edit c e))

-- Whatever is typed and whatever the kernel answers, as long as it does not answer a read with more
-- bytes than were asked for, the shell closes each file that it opens before it reads the next line,
-- asks only this file for bytes, for less than the 512 of its buffer, and puts the 0 behind the
-- bytes of an answer, and looks at the last of them, inside the buffer.
pub start-Balanced : (cs : List ℕ) (e : Editor) → Balanced [] (start cs e)
unfolding start welcome then_do BalancedIn
start-Balanced cs e = session-Balanced cs (record e { pos = 0 })
