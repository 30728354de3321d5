-- ===== src/Drivers/Ide/Wait.antt =====
-- The waiting loops and the registers of drivers/ide.c, up to the command: with fuel above the drive's
-- latency they end.
use pepin_os.Base.{
  ℕ, zero, suc, ◌<◌, ◌≡◌, refl, ap, ◌∙◌, inl, inr, arith, ◌==◌, false, Option, some, Bool-cases,
}
use pepin_os.Drivers.Ide.Port.{AtaDrive, Content, is_idle, ide_status, ide_wait_ready, ide_wait_drq}

module _ (d : AtaDrive) where
  open d use {
    State, inb, outb, content, delay, latency, delay_bound, status_content, status_delay,
    status_busy, status_drq, register_content, register_delay,
  }

  -- The loop ended in a state with the drive no longer busy and otherwise unchanged.
  pub record Waited (loop : Option State) (c : Content) : Type 0 where
    pub end : State
    pub ended : loop ≡ some end
    pub same : content end ≡ c
    pub ready : delay end ≡ 0

  wait_ready_fuel :
      (fuel : ℕ) (s : State) → delay s < fuel → Waited (ide_wait_ready d fuel s) (content s)
  unfolding ide_wait_ready
  wait_ready_fuel zero s h = elim h [ ]
  wait_ready_fuel (suc fuel) s h = elim (Bool-cases (delay s == 0)) [
    | inl now ↦ record {
      end = (inb ide_status s).1;
      ended = rw (status_busy s, now) refl;
      same = status_content s;
      ready = ground (arith, status_delay s);
    }
    | inr later ↦
        let rest = wait_ready_fuel fuel (inb ide_status s).1 (ground (arith, status_delay s)) in
        record {
          end = rest.end;
          ended = rw (status_busy s, later) rest.ended;
          same = rest.same ∙ status_content s;
          ready = rest.ready;
        }
  ]

  pub ide_wait_ready_lem :
      (fuel : ℕ) (s : State) → latency < fuel → Waited (ide_wait_ready d fuel s) (content s)
  ide_wait_ready_lem fuel s h = wait_ready_fuel fuel s (omega (arith, delay_bound s))

  wait_drq_fuel :
      (fuel : ℕ) (s : State)
      → delay s < fuel
      → is_idle (content s).phase ≡ false
      → Waited (ide_wait_drq d fuel s) (content s)
  unfolding ide_wait_drq
  wait_drq_fuel zero s h p = elim h [ ]
  wait_drq_fuel (suc fuel) s h p = elim (Bool-cases (delay s == 0)) [
    | inl now ↦ record {
      end = (inb ide_status s).1;
      ended = rw (status_busy s, now, status_drq s (ground arith), p) refl;
      same = status_content s;
      ready = ground (arith, status_delay s);
    }
    | inr later ↦
        let rest =
          wait_drq_fuel fuel (inb ide_status s).1 (ground (arith, status_delay s))
            (ap (λ c. is_idle c.phase) (status_content s) ∙ p) in
        record {
          end = rest.end;
          ended = rw (status_busy s, later) rest.ended;
          same = rest.same ∙ status_content s;
          ready = rest.ready;
        }
  ]

  pub ide_wait_drq_lem :
      (fuel : ℕ) (s : State)
      → latency < fuel
      → is_idle (content s).phase ≡ false
      → Waited (ide_wait_drq d fuel s) (content s)
  ide_wait_drq_lem fuel s h p = wait_drq_fuel fuel s (omega (arith, delay_bound s)) p
