-- ===== src/Process/Sched/Raise.antt =====
-- `sched_signal`, and a pending signal without a handler.
use pepin_os.Base.{
  ℕ, ◌^◌, ◌≤◌, ◌<◌, ◌≡◌, refl, ap, ◌∙◌, ◌≢◌, ◌⊎◌, inl, inr, arith, ◌==◌, true, none, some,
  if◌then◌else◌, shl32-one,
}
use pepin_os.Base.Int.{ℤ, pos}
use pepin_os.Base.Bits.{bit, bit-le_one, bit-bit_or, bit-pow}
use pepin_os.Process.Task.{Task}
use pepin_os.Process.Sched.{
  Sched, Cpu, find_signal, deliver, raise, bad_signal, sched_signal, set_task,
}
use pepin_os.Process.Sched.Pick.{find_signal_lem}

pub bit-raise :
    (sig : ℕ) (t : Task) (j : ℕ)
    → sig < 32
    → bit (raise sig t).sig_pending j ≡ (if sig == j then 1 else bit t.sig_pending j)
unfolding raise
bit-raise sig t j h = ground (
  arith,
  shl32-one sig h,
  bit-bit_or t.sig_pending (2 ^ sig) j,
  bit-pow sig j,
  bit-le_one t.sig_pending j,
)

-- `sched_signal` with a number from 1 to 31 marks that signal pending in the current task and
-- nothing else.
pub sched_signal_lem :
    (sig : ℕ) (s : Sched) (c : ℕ)
    → 1 ≤ sig
    → sig < 32
    → s.cur_task ≡ some c
    → let s' = sched_signal (pos sig) s in
      (s'.cur_task ≡ s.cur_task)
      × ((i : ℕ) → i ≢ c → s'.pool i ≡ s.pool i)
      × ((j : ℕ)
          → bit (s'.pool c).sig_pending j ≡ (if sig == j then 1 else bit (s.pool c).sig_pending j))
unfolding sched_signal bad_signal set_task
sched_signal_lem sig s c lo hi e =
    (ground arith, λ i ne. ground arith, λ j. ground (arith, bit-raise sig (s.pool c) j))

-- Any other number, and a signal before there is a task, is ignored.
pub sched_signal_ignored :
    (sig : ℤ) (s : Sched) → (bad_signal sig ≡ true) ⊎ (s.cur_task ≡ none) → sched_signal sig s ≡ s
unfolding sched_signal
sched_signal_ignored sig s h = ground arith

handlers-raise : (sig : ℕ) (t : Task) → (raise sig t).sig_handlers ≡ t.sig_handlers
unfolding raise
handlers-raise sig t = refl

-- The lowest pending signal has no handler.
pub record Blocked (t : Task) (k : ℕ) : Type 0 where
  pub number : (1 ≤ k) × (k < 32)
  pub pending : bit t.sig_pending k ≡ 1
  pub lowest : (j : ℕ) → 1 ≤ j → j < k → bit t.sig_pending j ≡ 0
  pub no_handler : t.sig_handlers k ≡ 0

picked-Blocked : (t : Task) (k : ℕ) → Blocked t k → find_signal 31 1 t.sig_pending ≡ k
picked-Blocked t k b =
    let p = find_signal_lem 31 1 t.sig_pending refl in
    elim (order (find_signal 31 1 t.sig_pending) k) [
      | inl below ↦
          absurd
            (omega (arith, p.2 (omega arith), b.lowest (find_signal 31 1 t.sig_pending) p.0 below))
      | inr (inl e) ↦ e
      | inr (inr above) ↦ absurd (omega (arith, p.3 k (b.number.0) above, b.pending))
    ]
  where
    order : (a b : ℕ) → (a < b) ⊎ ((a ≡ b) ⊎ (b < a))
    order a b = omega arith

-- A pending signal without a handler blocks every signal with a higher number, handler or not: no
-- delivery changes the task or its context, also after more such signals are raised.
pub deliver-Blocked :
    (t : Task) (cpu : Cpu) (k j : ℕ)
    → Blocked t k
    → k ≤ j
    → j < 32
    → (deliver t cpu ≡ (t, cpu)) × Blocked (raise j t) k
unfolding deliver
deliver-Blocked t cpu k j b le lt = (
  ground (arith, picked-Blocked t k b),
  record {
    number = b.number;
    pending = ground (arith, bit-raise j t k lt, b.pending);
    lowest = λ i lo hi. ground (arith, bit-raise j t i lt, b.lowest i);
    no_handler = ap (λ h. h k) (handlers-raise j t) ∙ b.no_handler;
  },
)
