-- ===== src/Process/Syscall/Files.antt =====
-- The system calls on files keep the table of open files and the pool of nodes in step.
use pepin_os.Base.{
  ℕ, ◌≤◌, ◌<◌, ◌≡◌, refl, sym, ap, ◌∙◌, ◌≢◌, inl, inr, arith, ◌==◌, false, Option, none, some, List,
  Bool-cases, Option-cases,
}
use mathlib.Core.Option
use mathlib.Core.Path.{subst, fun_ext}
use pepin_os.Base.Int.{ℤ, pos, negsuc, pos_part}
use pepin_os.Drivers.Ide.{Drive}
use pepin_os.Fs.Vfs.{FsNode, Vfs, vfs_open, vfs_close}
use pepin_os.Fs.Vfs.Open.{vfs_open_cases, vfs_close_lem}
use pepin_os.Process.Task.{Fd, closed}
use pepin_os.Process.Sched.{Sched, set_task}
use pepin_os.Process.Syscall.{
  Kernel, free_fd, set_fd, open_fd, sys_open, close_fd, sys_close, bad_fd,
}
use pepin_os.Process.Syscall.Table.{IsValid, written, close-IsValid, open-IsValid}

abbrev pub slots : Sched → ℕ → ℕ → Fd
slots s i fd = (s.pool i).files fd

abbrev pub in_use : Vfs → ℕ → ℕ
in_use v n = (v.node_pool n).used

-- Each open file of a task holds a node of the pool that is in use, and no two files share a node.
abbrev pub FilesAreValid : Kernel → Type 0
FilesAreValid k = IsValid (slots k.sched) (in_use k.vfs)

slots-set_fd :
    (c gd : ℕ) (f : Fd) (s : Sched) (i fd : ℕ)
    → slots (set_fd c gd f s) i fd ≡ written c gd f (slots s) i fd
unfolding set_fd set_task
slots-set_fd c gd f s i fd = elim (Bool-cases (c == i)) [
  | inl same ↦ let e : c ≡ i = ground arith in rw (sym e) (ground arith)
  | inr other ↦ ground arith
]

-- The state that a call returns has the property; the calls that do not return have none.
abbrev pub AfterCall : (Kernel → Type 0) → Option (ℤ × Kernel) → Type 0
AfterCall P none = Unit
AfterCall P (some r) = P r.1

moved :
    (slot slot' : ℕ → ℕ → Fd) (used : ℕ → ℕ)
    → ((i fd : ℕ) → slot' i fd ≡ slot i fd)
    → IsValid slot used
    → IsValid slot' used
moved slot slot' used h v =
    subst (λ (s : ℕ → ℕ → Fd). IsValid s used) (fun_ext (λ i. fun_ext (λ fd. sym (h i fd)))) v

closes :
    (c fd : ℕ) (k : Kernel) → 3 ≤ fd → fd < 8 → FilesAreValid k → FilesAreValid (close_fd c fd k).1
unfolding close_fd
closes c fd k lo hi v = elim (Bool-cases ((slots k.sched c fd).used == 0)) [
  | inl free ↦ rw free v
  | inr taken ↦
      let (n, held, busy) = v.node c fd lo hi (ground arith) in
      rw (taken, held)
        (moved (written c fd closed (slots k.sched)) (slots (set_fd c fd closed k.sched))
          (in_use (vfs_close (some n) k.vfs)) (slots-set_fd c fd closed k.sched)
          (close-IsValid (slots k.sched) (in_use k.vfs) (in_use (vfs_close (some n) k.vfs)) c fd n
            closed v (lo, hi, ground arith, held) refl
            (λ m ne. vfs_close_lem n k.vfs m ∙ ground (arith, ne))))
]

good_fd : (fd : ℤ) → bad_fd fd ≡ false → (3 ≤ pos_part fd) × (pos_part fd < 8)
unfolding bad_fd
good_fd (pos n) e = (ground arith, ground arith)
good_fd (negsuc n) e = (ground arith, ground arith)

-- `SYS_CLOSE` keeps this: each open file holds a node of the pool that is in use, and no two
-- files share one.
pub sys_close-FilesAreValid :
    (current : Option ℕ) (fd : ℤ) (k : Kernel)
    → FilesAreValid k
    → AfterCall FilesAreValid (sys_close current fd k)
unfolding sys_close
sys_close-FilesAreValid none fd k v = elim (Bool-cases (bad_fd fd)) [
  | inl bad ↦ rw bad v
  | inr good ↦ rw good tt
]
sys_close-FilesAreValid (some c) fd k v = elim (Bool-cases (bad_fd fd)) [
  | inl bad ↦ rw bad v
  | inr good ↦ let range = good_fd fd good in rw good (closes c (pos_part fd) k range.0 range.1 v)
]

-- The node `n` has become used in the pool of `v`, and it was not.
record IsNew (before : ℕ → ℕ) (v : Vfs) (n : ℕ) : Type 0 where
  free : before n ≡ 0
  busy : in_use v n ≢ 0
  others : (m : ℕ) → n ≢ m → in_use v m ≡ before m

put_back :
    (n : ℕ) (before : ℕ → ℕ) (v : Vfs)
    → IsNew before v n
    → (m : ℕ) → in_use (vfs_close (some n) v) m ≡ before m
put_back n before v new m = vfs_close_lem n v m ∙ elim (Bool-cases (n == m)) [
  | inl same ↦ let e : n ≡ m = ground arith in rw same (sym (ap before (sym e) ∙ new.free))
  | inr other ↦ rw other (new.others m (ground arith))
]

opens :
    (c n : ℕ) (before : ℕ → ℕ) (k : Kernel)
    → IsValid (slots k.sched) before
    → IsNew before k.vfs n
    → FilesAreValid (open_fd c n k).1
unfolding open_fd
opens c n before k v new = elim (Option-cases (free_fd 5 3 (slots k.sched c))) [
  | inl full ↦
      rw (open_fd, full)
        (subst (λ (u : ℕ → ℕ). IsValid (slots k.sched) u)
          (fun_ext (λ m. sym (put_back n before k.vfs new m))) v)
  | inr (fd, found) ↦
      let f : Fd = record { node = some n; offset = 0; used = 1 } in
      rw (open_fd, found)
        (moved (written c fd f (slots k.sched)) (slots (set_fd c fd f k.sched)) (in_use k.vfs)
          (slots-set_fd c fd f k.sched)
          (open-IsValid (slots k.sched) before (in_use k.vfs) c fd n f v refl new.free new.busy
            new.others))
]

opens_current :
    (current : Option ℕ) (n : ℕ) (before : ℕ → ℕ) (k : Kernel)
    → IsValid (slots k.sched) before
    → IsNew before k.vfs n
    → AfterCall FilesAreValid (Option.map (λ c. open_fd c n k) current)
opens_current none n before k v new = tt
opens_current (some c) n before k v new = opens c n before k v new

-- `SYS_OPEN` keeps this as well, whether it finds the file, a node and a number or not: each open file
-- holds a node of the pool that is in use, and no two files share one.
pub sys_open-FilesAreValid :
    (drive : Drive) (stack : ℕ → ℕ) (current : Option ℕ) (path : List ℕ) (k : Kernel)
    → FilesAreValid k
    → AfterCall FilesAreValid (sys_open drive stack current path k)
unfolding sys_open
sys_open-FilesAreValid drive stack current path k v = elim (vfs_open_cases drive stack path k.vfs) [
  | inl (failed, same, why) ↦
      rw (AfterCall, sys_open, failed)
        (subst (λ (p : ℕ → FsNode). IsValid (slots k.sched) (λ n. (p n).used)) (sym same) v)
  | inr (n, found, o) ↦
      rw (AfterCall, sys_open, found)
        (opens_current current n (in_use k.vfs)
          (record k { vfs = (vfs_open drive stack path k.vfs).1 }) v
          (record {
            free = o.free;
            busy = omega (arith, o.used);
            others = λ m ne. ap (λ (x : FsNode). x.used) (o.others m ne);
          }))
]
