-- ===== src/Process/Syscall.antt =====
-- process/syscall.c: the dispatcher of system calls. Memory is that of the calling process, which
-- is apart from the kernel's: `mem` is the byte at each user address. `frame` is the block of
-- registers on the kernel stack.
pub mod Signal
pub mod Table
pub mod Files
mod Tests
use pepin_os.Base.{
  ℕ, zero, suc, ◌+◌, ◌-◌, ◌*◌, ◌/◌, ◌%◌, ◌^◌, ◌≤◌, ◌<◌, ◌≡◌, refl, sym, ap, ◌∙◌, ◌≢◌, ◌⊎◌, inl, inr,
  arith, ◌==◌, ltb, leb, min, max, bit_and, bit_or, Bool, true, false, not, ◌&&◌, ◌||◌, Option,
  none, some, List, [], ◌∷◌, ◌++◌, map, if◌then◌else◌, for_range, update, for_range-update,
  update_self, length, get_elem?, length-append, Bool-cases, Option-cases, u32_mod, add32, sub32,
  mul32, shl32, shl32-one, pow-lt-u32, ltb→lt, lt→ltb, ltb→le, ==_iff,
}
use mathlib.Core.Option
use pepin_os.Base.Int.{ℤ, pos, negsuc, ltb_ℤ, pos_part, signed32, to_char}
use pepin_os.Base.Text.{codes}
use pepin_os.Drivers.Ide.{Drive}
use pepin_os.Drivers.Screen.{Screen, print}
use pepin_os.Drivers.Keyboard.{Keyboard, kb_getchar}
use pepin_os.Fs.Ext2.{ext2_ls}
use pepin_os.Fs.Vfs.{Vfs, vfs_open, vfs_close, vfs_read}
use pepin_os.Process.Task.{Task, Fd, closed, max_fd}
use pepin_os.Process.Sched.{Sched, set_task, sched_current_task, raise, bad_signal}

pub record Kernel : Type 0 where
  pub sched : Sched
  pub vfs : Vfs
  pub keyboard : Keyboard
  pub screen : Screen
  pub mem : ℕ → ℕ

-- How the dispatcher ends: it returns a number and the block of registers, it stays in the loop of
-- `SYS_EXIT`, or it follows a null pointer to a task.
pub data Outcome : Type 0 where
  returns : ℤ → (ℕ → ℕ) → Kernel → Outcome
  stops : Kernel → Outcome
  follows_null : Outcome

-- The bytes from an address on before the first 0, among the next `n`.
pub string_from : ℕ → (ℕ → ℕ) → ℕ → List ℕ
string_from zero mem a = []
string_from (suc n) mem a = elim (mem a) [
  | zero ↦ []
  | suc c ↦ suc c ∷ string_from n mem (add32 a 1)
]

-- The string at a user address.
abbrev pub string_at : (ℕ → ℕ) → ℕ → List ℕ
string_at mem a = string_from u32_mod mem a

abbrev pub minus_one : ℤ
minus_one = negsuc 0

pub sys_print : ℕ → Kernel → Kernel
sys_print ebx k = record k {
  screen = print (string_at k.mem ebx) (record (k.screen) { kattr = 0x0F });
}

pub sys_exit : Kernel → Kernel
sys_exit k = record k {
  screen = print (codes "\n[kernel] tarea terminada.\n") (record (k.screen) { kattr = 0x0C });
}

-- `for (fd = ...; fd < MAX_FD; fd++) if (!t->files[fd].used) ...` with the rounds left.
pub free_fd : ℕ → ℕ → (ℕ → Fd) → Option ℕ
free_fd zero fd files = none
free_fd (suc n) fd files =
    let rest = free_fd n (suc fd) files in if (files fd).used == 0 then some fd else rest

pub set_fd : ℕ → ℕ → Fd → Sched → Sched
set_fd c fd f s = set_task c (record (s.pool c) { files = update (s.pool c).files fd f }) s

-- `SYS_OPEN` for the task `c` with the node that `vfs_open` gave.
pub open_fd : ℕ → ℕ → Kernel → ℤ × Kernel
open_fd c node k = elim (free_fd (max_fd - 3) 3 (k.sched.pool c).files) [
  | some fd ↦ (
    pos fd,
    record k { sched = set_fd c fd (record { node = some node; offset = 0; used = 1 }) k.sched },
  )
  | none ↦ (minus_one, record k { vfs = vfs_close (some node) k.vfs })
]

-- `none` if the pointer to the task is null and is followed.
pub sys_open : Drive → (stack : ℕ → ℕ) → Option ℕ → List ℕ → Kernel → Option (ℤ × Kernel)
sys_open drive stack current path k =
    let out = vfs_open drive stack path k.vfs in
    elim out.0 [
      | none ↦ some (minus_one, record k { vfs = out.1 })
      | some node ↦ Option.map (λ c. open_fd c node (record k { vfs = out.1 })) current
    ]

-- `fd < 3 || fd >= MAX_FD`
pub bad_fd : ℤ → Bool
bad_fd fd = ltb_ℤ fd (pos 3) || not (ltb_ℤ fd (pos max_fd))

-- `SYS_CLOSE` for the task `c` and a number of the table.
pub close_fd : ℕ → ℕ → Kernel → ℤ × Kernel
close_fd c fd k =
    let f = (k.sched.pool c).files fd in
    if f.used == 0
    then (minus_one, k)
    else (pos 0, record k { vfs = vfs_close f.node k.vfs; sched = set_fd c fd closed k.sched })

pub sys_close : Option ℕ → ℤ → Kernel → Option (ℤ × Kernel)
sys_close current fd k =
    if bad_fd fd then some (minus_one, k) else Option.map (λ c. close_fd c (pos_part fd) k) current

-- The bytes from a user address on.
abbrev pub window : ℕ → (ℕ → ℕ) → ℕ → ℕ
window a mem i = mem (add32 a i)

-- The memory after the bytes from `a` on have become those of `buf`.
abbrev pub store : ℕ → (ℕ → ℕ) → ℕ → ℕ
store a buf b = buf (sub32 b a)

pub read_fd : Drive → (stack : ℕ → ℕ) → ℕ → ℕ → (buf count : ℕ) → Kernel → ℤ × Kernel
read_fd drive stack c fd buf count k =
    let f = (k.sched.pool c).files fd in
    let out = vfs_read drive stack f.node f.offset count (window buf k.mem) k.vfs in
    if f.used == 0 then (minus_one, k) else (
      signed32 out.0,
      record k {
        vfs = out.2;
        sched = set_fd c fd (record f { offset = add32 f.offset out.0 }) k.sched;
        mem = store buf out.1;
      },
    )

pub sys_read :
    Drive → (stack : ℕ → ℕ) → Option ℕ → ℤ → (buf count : ℕ) → Kernel → Option (ℤ × Kernel)
sys_read drive stack current fd buf count k =
    if bad_fd fd
    then some (minus_one, k)
    else Option.map (λ c. read_fd drive stack c (pos_part fd) buf count k) current

pub sys_getchar : Kernel → ℤ × Kernel
sys_getchar k =
    let out = kb_getchar k.keyboard in (pos (out.0 % 256), record k { keyboard = out.1 })

pub sys_ls : Drive → (stack : ℕ → ℕ) → Kernel → Kernel
sys_ls drive stack k =
    let out = ext2_ls drive 2 stack k.vfs.fs in
    record k {
      vfs = record (k.vfs) { fs = out.1 };
      screen = print out.0 (record (k.screen) { kattr = 0x0E });
    }

pub sys_sigaction : ℤ → ℕ → Kernel → ℤ × Kernel
sys_sigaction sig handler k = elim (sched_current_task k.sched) [
  | none ↦ (minus_one, k)
  | some c ↦
      let t = k.sched.pool c in
      let t' = record t { sig_handlers = update t.sig_handlers (pos_part sig) handler } in
      if bad_signal sig then (minus_one, k) else (pos 0, record k { sched = set_task c t' k.sched })
]

pub sys_kill : ℤ → Kernel → ℤ × Kernel
sys_kill sig k = elim (sched_current_task k.sched) [
  | none ↦ (minus_one, k)
  | some c ↦
      if bad_signal sig
      then (minus_one, k)
      else (pos 0, record k { sched = set_task c (raise (pos_part sig) (k.sched.pool c)) k.sched })
]

-- The block of registers that `SYS_SIGRETURN` leaves.
pub restored : (ℕ → ℕ) → (ℕ → ℕ) → ℕ → ℕ
restored saved frame =
    let general =
      update (update (update (update frame 0 (saved 7)) 1 (saved 4)) 2 (saved 6)) 3 (saved 5) in
    update
      (update (update (update (update general 4 (saved 8)) 5 (saved 9)) 6 (saved 10)) 7 (saved 11))
      8 (saved 12)

pub sys_sigreturn : (ℕ → ℕ) → Kernel → ℤ × (ℕ → ℕ) × Kernel
sys_sigreturn frame k = elim (sched_current_task k.sched) [
  | none ↦ (minus_one, frame, k)
  | some c ↦
      let t = k.sched.pool c in
      let t' = record t { sig_in_handler = 0 } in
      if t.sig_in_handler == 0
      then (minus_one, frame, k)
      else (pos 0, restored t.sig_saved_regs frame, record k { sched = set_task c t' k.sched })
]

abbrev outcome : (ℕ → ℕ) → Option (ℤ × Kernel) → Outcome
outcome frame none = Outcome.follows_null
outcome frame (some r) = Outcome.returns r.0 frame r.1

pub syscall_handler :
    Drive → (stack : ℕ → ℕ) → (frame : ℕ → ℕ) → (eax ebx ecx edx : ℕ) → Kernel → Outcome
syscall_handler drive stack frame eax ebx ecx edx k =
    if eax == 0
    then Outcome.returns (pos 0) frame (sys_print ebx k)
    else if eax == 1
    then Outcome.stops (sys_exit k)
    else if eax == 2
    then Outcome.returns (pos 0) frame
        (record k { screen = record (k.screen) { kattr = ebx % 256 } })
    else if eax == 3
    then outcome frame (sys_open drive stack (sched_current_task k.sched) (string_at k.mem ebx) k)
    else if eax == 4
    then outcome frame (sys_close (sched_current_task k.sched) (signed32 ebx) k)
    else if eax == 5
    then outcome frame (sys_read drive stack (sched_current_task k.sched) (signed32 ebx) ecx edx k)
    else if eax == 6
    then Outcome.returns (sys_getchar k).0 frame (sys_getchar k).1
    else if eax == 7
    then Outcome.returns (pos 0) frame (sys_ls drive stack k)
    else if eax == 8
    then Outcome.returns (sys_sigaction (signed32 ebx) ecx k).0 frame
        (sys_sigaction (signed32 ebx) ecx k).1
    else if eax == 9
    then Outcome.returns (sys_kill (signed32 ebx) k).0 frame (sys_kill (signed32 ebx) k).1
    else if eax == 10
    then Outcome.returns (sys_sigreturn frame k).0 (sys_sigreturn frame k).1
        (sys_sigreturn frame k).2
    else Outcome.returns minus_one frame k
