-- ===== src/User/Shell.antt =====
-- user/shell.c: the shell. A text is the list of its bytes before the 0 that ends it. The functions
-- give the system calls that they make, each with what follows on it; for a call whose answer the
-- shell uses, that depends on the answer.
pub mod Words
pub mod Dispatch
pub mod Number
pub mod Files
pub mod Line
pub mod Session
mod Tests
use pepin_os.Base.{
  ℕ, zero, suc, ◌+◌, ◌-◌, ◌*◌, ◌/◌, ◌%◌, ◌^◌, ◌≤◌, ◌<◌, ◌≡◌, refl, sym, ap, ◌∙◌, ◌≢◌, ◌⊎◌, inl, inr,
  arith, ◌==◌, ltb, leb, min, max, bit_and, bit_or, Bool, true, false, not, ◌&&◌, ◌||◌, Option,
  none, some, List, [], ◌∷◌, ◌++◌, map, if◌then◌else◌, for_range, update, for_range-update,
  update_self, length, get_elem?, length-append, Bool-cases, Option-cases, u32_mod, add32, sub32,
  mul32, shl32, shl32-one, pow-lt-u32, ltb→lt, lt→ltb, ltb→le, ==_iff,
}
use pepin_os.Base.Int.{ℤ, pos, negsuc, ltb_ℤ, pos_part, signed32}
use pepin_os.Base.Text.{codes, until_nul, bytes_of}

-- What `sys_sigaction` installs.
pub data Handler : Type 0 where
  sigint_handler : Handler
  sigusr1_handler : Handler
  sigterm_handler : Handler

-- `sys_read` has the descriptor and the count, and is answered with the number of bytes and what the
-- buffer holds then. Nothing follows on `sys_sigreturn`; `sys_getchar` is the one whose answer is not
-- used. `overrun` is an access outside an array: C says nothing of what follows.
pub data Program : Type 0 where
  done : Program
  sys_print : List ℕ → Program → Program
  sys_setcolor : ℕ → Program → Program
  sys_open : List ℕ → (ℤ → Program) → Program
  sys_close : ℤ → Program → Program
  sys_read : ℤ → ℕ → (ℤ → (ℕ → ℕ) → Program) → Program
  sys_ls : Program → Program
  sys_kill : ℤ → Program → Program
  sys_getchar : Program → Program
  sys_sigaction : ℤ → Handler → Program → Program
  sys_sigreturn : Program
  overrun : Program

-- A statement before another.
pub then_do : Program → Program → Program
then_do Program.done q = q
then_do (Program.sys_print s p) q = Program.sys_print s (then_do p q)
then_do (Program.sys_setcolor a p) q = Program.sys_setcolor a (then_do p q)
then_do (Program.sys_open s p) q = Program.sys_open s (λ fd. then_do (p fd) q)
then_do (Program.sys_close fd p) q = Program.sys_close fd (then_do p q)
then_do (Program.sys_read fd count p) q = Program.sys_read fd count (λ n buf. then_do (p n buf) q)
then_do (Program.sys_ls p) q = Program.sys_ls (then_do p q)
then_do (Program.sys_kill sig p) q = Program.sys_kill sig (then_do p q)
then_do (Program.sys_getchar p) q = Program.sys_getchar (then_do p q)
then_do (Program.sys_sigaction sig h p) q = Program.sys_sigaction sig h (then_do p q)
then_do Program.sys_sigreturn q = Program.sys_sigreturn
then_do Program.overrun q = Program.overrun

-- `sys_print` of each text.
abbrev print_all : List (List ℕ) → Program
print_all [] = Program.done
print_all (s ∷ ss) = Program.sys_print s (print_all ss)

pub str_eq : List ℕ → List ℕ → Bool
str_eq [] [] = true
str_eq [] (b ∷ ys) = false
str_eq (a ∷ xs) [] = false
str_eq (a ∷ xs) (b ∷ ys) = let rest = str_eq xs ys in if a == b then rest else false

pub str_starts : List ℕ → List ℕ → Bool
str_starts s [] = true
str_starts [] (p ∷ ps) = false
str_starts (c ∷ cs) (p ∷ ps) = let rest = str_starts cs ps in if c == p then rest else false

-- `while (*s && *s != ' ') s++;`
pub skip_to_space : List ℕ → List ℕ
skip_to_space [] = []
skip_to_space (c ∷ cs) = let rest = skip_to_space cs in if c == 32 then c ∷ cs else rest

-- `while (*s == ' ') s++;`
pub skip_spaces : List ℕ → List ℕ
skip_spaces [] = []
skip_spaces (c ∷ cs) = let rest = skip_spaces cs in if c == 32 then rest else c ∷ cs

pub str_skip_word : List ℕ → List ℕ
str_skip_word s = skip_spaces (skip_to_space s)

-- `n` goes round at 2^32; the result is the word that the `int` has.
pub atoi_from : ℕ → List ℕ → ℕ
atoi_from n [] = n
atoi_from n (c ∷ cs) =
    let rest = atoi_from (add32 (mul32 n 10) (c - 48)) cs in
    if leb 48 c && leb c 57 then rest else n

pub str_atoi : List ℕ → ℕ
str_atoi s = atoi_from 0 s

abbrev repeat : ℕ → (Program → Program) → Program → Program
repeat zero f p = p
repeat (suc n) f p = f (repeat n f p)

-- What a handler does; that of SIGTERM goes on reading keys, here for `n` rounds.
pub handle : ℕ → Handler → Program
handle n Handler.sigint_handler = Program.sys_setcolor 0x0C (
    Program.sys_print (codes "\n[SIGINT] Ctrl+C recibido. Escribe 'help' para ver comandos.\n")
      Program.sys_sigreturn)
handle n Handler.sigusr1_handler =
    Program.sys_setcolor 0x0E
      (Program.sys_print (codes "[SIGUSR1] Senal de usuario 1 recibida.\n") Program.sys_sigreturn)
handle n Handler.sigterm_handler = Program.sys_setcolor 0x0C (
    Program.sys_print (codes "[SIGTERM] Terminando...\n")
      (repeat n Program.sys_getchar Program.done))

pub cmd_help : Program
cmd_help = Program.sys_setcolor 0x0B (
    Program.sys_print (codes "Comandos disponibles:\n") (
      Program.sys_setcolor 0x07 (
        print_all (
          codes "  help          - muestra esta ayuda\n"
          ∷ codes "  ls            - lista el directorio raiz\n"
          ∷ codes "  cat <archivo> - muestra el contenido de un archivo\n"
          ∷ codes "  echo <texto>  - imprime texto\n"
          ∷ codes "  clear         - limpia la pantalla\n"
          ∷ codes "  raise <N>     - envia la senal N al proceso actual\n"
          ∷ codes "\nSenales instaladas:\n"
          ∷ codes "  SIGINT  (2)   - Ctrl+C\n"
          ∷ codes "  SIGUSR1 (10)  - raise 10\n"
          ∷ codes "  SIGTERM (15)  - raise 15\n"
          ∷ []))))

-- On the 512 bytes of `buf`: `buf[n] = 0; sys_print(buf); if (buf[n - 1] != '\n') sys_print("\n");`, if n is more than 0.
pub show_read : ℤ → (ℕ → ℕ) → Program → Program
show_read (negsuc n) buf next = next
show_read (pos zero) buf next = next
show_read (pos (suc n)) buf next =
    if ltb (suc n) 512
    then Program.sys_print (until_nul (bytes_of (suc n) buf))
        (if buf n == 10 then next else Program.sys_print (codes "\n") next)
    else Program.overrun

pub cmd_cat : List ℕ → Program
cmd_cat [] =
    Program.sys_setcolor 0x0C (Program.sys_print (codes "uso: cat <archivo>\n") Program.done)
cmd_cat (c ∷ cs) = Program.sys_open (c ∷ cs) (λ fd.
    if ltb_ℤ fd (pos 0)
    then Program.sys_setcolor 0x0C
        (print_all (codes "cat: no encontrado: " ∷ (c ∷ cs) ∷ codes "\n" ∷ []))
    else Program.sys_setcolor 0x0F
        (Program.sys_read fd 511 (λ n buf. show_read n buf (Program.sys_close fd Program.done))))

pub cmd_echo : List ℕ → Program
cmd_echo text = Program.sys_setcolor 0x0F (print_all (text ∷ codes "\n" ∷ []))

pub cmd_clear : Program
cmd_clear =
    Program.sys_setcolor 0x00
      (repeat 25 (Program.sys_print (codes "\n")) (Program.sys_setcolor 0x0F Program.done))

pub cmd_raise : List ℕ → Program
cmd_raise [] =
    Program.sys_setcolor 0x0C (Program.sys_print (codes "uso: raise <numero_senal>\n") Program.done)
cmd_raise (c ∷ cs) =
    let sig = signed32 (str_atoi (c ∷ cs)) in
    if not (ltb_ℤ (pos 0) sig)
    then Program.sys_setcolor 0x0C
        (Program.sys_print (codes "raise: numero de senal invalido\n") Program.done)
    else Program.sys_setcolor 0x07 (
        Program.sys_print (codes "Enviando senal ") (
          Program.sys_print (c ∷ cs)
            (Program.sys_print (codes "...\n") (Program.sys_kill sig Program.done))))

-- The last `else` of `execute`.
pub unknown : List ℕ → Program
unknown line =
    Program.sys_setcolor 0x0C (print_all (codes "desconocido: " ∷ line ∷ codes "\n" ∷ []))

pub execute : List ℕ → Program
execute line =
    if str_eq line (codes "help")
    then cmd_help
    else if str_eq line (codes "ls")
    then Program.sys_ls Program.done
    else if str_starts line (codes "cat ")
    then cmd_cat (str_skip_word line)
    else if str_eq line (codes "cat")
    then cmd_cat []
    else if str_starts line (codes "echo ")
    then cmd_echo (str_skip_word line)
    else if str_eq line (codes "echo")
    then Program.sys_print (codes "\n") Program.done
    else if str_eq line (codes "clear")
    then cmd_clear
    else if str_starts line (codes "raise ")
    then cmd_raise (str_skip_word line)
    else if str_eq line (codes "raise")
    then cmd_raise []
    else if str_eq line []
    then Program.done
    else unknown line

-- `line` and `pos` of `_start`.
pub record Editor : Type 0 where
  pub line : ℕ → ℕ
  pub pos : ℕ

-- `c == '\n' || c == '\r'`
abbrev pub is_enter : ℕ → Bool
is_enter c = c == 10 || c == 13

-- `c == '\b' || c == 127`
abbrev pub is_erase : ℕ → Bool
is_erase c = c == 8 || c == 127

-- The loops that read a line, for the answer `c` of `sys_getchar`. A 0 asks again, and the
-- character that ends the line leaves the position to the next line.
pub edit : ℕ → Editor → Editor
edit c e =
    if c == 0
    then e
    else if is_enter c
    then record { line = update e.line e.pos 0; pos = 0 }
    else if is_erase c
    then (if ltb 0 e.pos then record e { pos = e.pos - 1 } else e)
    else if ltb e.pos 127
    then record { line = update e.line e.pos c; pos = suc e.pos }
    else e

-- The text in `line`, which a 0 ends within the buffer of 128 bytes.
pub text_of : Editor → List ℕ
text_of e = until_nul (bytes_of 128 e.line)

abbrev pub prompt : Program → Program
prompt p =
    Program.sys_setcolor 0x0A (Program.sys_print (codes "pepinos$ ") (Program.sys_setcolor 0x0F p))

-- What the shell does on the answer `c`, before `next`.
pub answer : ℕ → Editor → Program → Program
answer c e next =
    if c == 0
    then next
    else if is_enter c
    then Program.sys_print (codes "\n")
        (Program.sys_setcolor 0x07 (then_do (execute (text_of (edit c e))) (prompt next)))
    else if is_erase c && ltb 0 e.pos
    then Program.sys_print (8 ∷ 32 ∷ 8 ∷ []) next
    else next

-- The loop of `_start` as far as the answers of `sys_getchar` go.
pub session : List ℕ → Editor → Program
session [] e = Program.done
session (c ∷ cs) e = let rest = session cs (edit c e) in answer c e rest

-- `_start` before its loop.
pub welcome : Program
welcome = Program.sys_sigaction (pos 2) Handler.sigint_handler (
    Program.sys_sigaction (pos 10) Handler.sigusr1_handler (
      Program.sys_sigaction (pos 15) Handler.sigterm_handler (
        Program.sys_setcolor 0x0B (
          Program.sys_print (codes "\n  PepinOS Shell  (paso 24 - senales POSIX)\n") (
            Program.sys_setcolor 0x07 (
              Program.sys_print (codes "  help: comandos disponibles\n") (
                Program.sys_print (codes "  Ctrl+C envia SIGINT | 'raise N' envia la senal N\n\n")
                  Program.done)))))))

-- `_start`, with what `line` and `pos` hold before.
pub start : List ℕ → Editor → Program
start cs e = then_do welcome (prompt (session cs (record e { pos = 0 })))
