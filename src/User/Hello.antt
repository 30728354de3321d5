-- ===== src/User/Hello.antt =====
-- user/hello.c: the first program of user code, as the system calls that it makes. The loop at its end
-- is given the number of its rounds.
mod Files
use pepin_os.Base.{
  ℕ, zero, suc, ◌+◌, ◌-◌, ◌*◌, ◌/◌, ◌%◌, ◌^◌, ◌≤◌, ◌<◌, ◌≡◌, refl, sym, ap, ◌∙◌, ◌≢◌, ◌⊎◌, inl, inr,
  arith, ◌==◌, ltb, leb, min, max, bit_and, bit_or, Bool, true, false, not, ◌&&◌, ◌||◌, Option,
  none, some, List, [], ◌∷◌, ◌++◌, map, if◌then◌else◌, for_range, update, for_range-update,
  update_self, length, get_elem?, length-append, Bool-cases, Option-cases, u32_mod, add32, sub32,
  mul32, shl32, shl32-one, pow-lt-u32, ltb→lt, lt→ltb, ltb→le, ==_iff,
}
use pepin_os.Base.Int.{ℤ, pos, negsuc, ltb_ℤ}
use pepin_os.Base.Text.{codes, until_nul, bytes_of}
use pepin_os.User.Shell.{Program}

-- `while (1) sys_print(".");`
pub dots : ℕ → Program
dots zero = Program.done
dots (suc rounds) = Program.sys_print (codes ".") (dots rounds)

-- `if (n > 0) { buf[n] = 0; ... }`, on the 64 bytes of `buf`.
pub show_hello : ℤ → (ℕ → ℕ) → Program → Program
show_hello (negsuc n) buf next = next
show_hello (pos zero) buf next = next
show_hello (pos (suc n)) buf next =
    if ltb (suc n) 64
    then Program.sys_setcolor 0x0E (
        Program.sys_print (codes "hola.txt: ")
          (Program.sys_print (until_nul (bytes_of (suc n) buf)) next))
    else Program.overrun

pub hello : ℕ → Program
hello rounds =
    let end = Program.sys_setcolor 0x0A (dots rounds) in
    Program.sys_setcolor 0x0A (
      Program.sys_print (codes "hola desde PepinOS!\n") (
        Program.sys_open (codes "hola.txt") (λ fd.
          if not (ltb_ℤ fd (pos 0))
          then Program.sys_read fd 63 (λ n buf. show_hello n buf (Program.sys_close fd end))
          else end)))
