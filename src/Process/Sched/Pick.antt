-- ===== src/Process/Sched/Pick.antt =====
-- Which signal `do_switch` picks: the pending one with the lowest number.
use pepin_os.Base.{
  ℕ, zero, suc, ◌+◌, ◌≤◌, ◌<◌, ◌≡◌, ◌∙◌, inl, inr, arith, ◌==◌, if◌then◌else◌, Bool-cases,
  shl32-one,
}
use pepin_os.Base.Bits.{bit, bit-le_one}
use pepin_os.Base.Bits.Masks.{bit_and-pow_test}
use pepin_os.Process.Sched.{find_signal}

find_signal_step :
    (n k p : ℕ)
    → k < 32
    → find_signal (suc n) k p ≡ (if bit p k == 0 then find_signal n (suc k) p else k)
unfolding find_signal
find_signal_step n k p h = ground (arith, shl32-one k h, bit_and-pow_test k p)

-- From number `k` on, with enough rounds to look at all signals.
pub find_signal_lem :
    (n k p : ℕ)
    → k + n ≡ 32
    → (k ≤ find_signal n k p)
      × (find_signal n k p ≤ 32)
      × (find_signal n k p < 32 → bit p (find_signal n k p) ≡ 1)
      × ((j : ℕ) → k ≤ j → j < find_signal n k p → bit p j ≡ 0)
unfolding find_signal
find_signal_lem zero k p e =
    (omega arith, omega arith, λ h. absurd (omega arith), λ j a b. absurd (omega arith))
find_signal_lem (suc n) k p e = elim (Bool-cases (bit p k == 0)) [
  | inl clear ↦
      let step : find_signal (suc n) k p ≡ find_signal n (suc k) p =
        find_signal_step n k p (omega arith) ∙ ground arith in
      let rest = find_signal_lem n (suc k) p (omega arith) in
      (
        omega (arith, step, rest.0),
        omega (arith, step, rest.1),
        λ h. rw step (rest.2 (omega (arith, step))),
        λ j a b. ground (arith, step, rest.3 j),
      )
  | inr set ↦
      let step : find_signal (suc n) k p ≡ k =
        find_signal_step n k p (omega arith) ∙ ground arith in
      (
        omega (arith, step),
        omega (arith, step),
        λ h. rw step (ground (arith, bit-le_one p k)),
        λ j a b. absurd (omega (arith, step)),
      )
]
