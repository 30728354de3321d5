-- ===== src/Drivers/Ide/Select.antt =====
-- `ide_select_sector` of drivers/ide.c against the drive: what the registers hold before a command.
use pepin_os.Base.{ℕ, ◌≤◌, ◌<◌, ◌≡◌, refl, ap, ◌∙◌, arith, bit_and, some}
use pepin_os.Drivers.Ide.{ide_select_sector, addressed-ide_select_sector}
use pepin_os.Drivers.Ide.Port.{
  AtaDrive, Content, idle, write_register, IsSelected, send_registers, select_sector,
}
use pepin_os.Drivers.Ide.Wait.{ide_wait_ready_lem}

abbrev with_registers : ℕ → Content → Content
with_registers lba c = record c { seccount = 1; registers = ide_select_sector lba }

module _ (d : AtaDrive) where
  open d use {
    State, inb, outb, content, delay, latency, delay_bound, register_content, register_delay,
  }

  send :
      (port v : ℕ) (s : State) (c : Content)
      → 0x1F2 ≤ port
      → port ≤ 0x1F6
      → delay s ≡ 0
      → content s ≡ c
      → c.phase ≡ idle
      → (delay (outb port v s) ≡ 0) × (content (outb port v s) ≡ write_register port v c)
  send port v s c lo hi ready e p =
      let q = ap (λ (x : Content). x.phase) e ∙ p in
      (
        register_delay port v s ready q lo hi,
        register_content port v s ready q lo hi ∙ ap (write_register port v) e,
      )

  send_registers_lem :
      (lba : ℕ) (s : State)
      → delay s ≡ 0
      → (content s).phase ≡ idle
      → (delay (send_registers d lba s) ≡ 0)
        × (content (send_registers d lba s) ≡ with_registers lba (content s))
  unfolding send_registers
  send_registers_lem lba s ready p =
      let r = ide_select_sector lba in
      let c1 = write_register 0x1F6 r.drive_head (content s) in
      let c2 = write_register 0x1F2 1 c1 in
      let c3 = write_register 0x1F3 r.lba_lo c2 in
      let c4 = write_register 0x1F4 r.lba_mid c3 in
      let s1 = outb 0x1F6 r.drive_head s in
      let s2 = outb 0x1F2 1 s1 in
      let s3 = outb 0x1F3 r.lba_lo s2 in
      let s4 = outb 0x1F4 r.lba_mid s3 in
      let e1 = send 0x1F6 r.drive_head s (content s) (omega arith) (omega arith) ready refl p in
      let e2 = send 0x1F2 1 s1 c1 (omega arith) (omega arith) e1.0 e1.1 p in
      let e3 = send 0x1F3 r.lba_lo s2 c2 (omega arith) (omega arith) e2.0 e2.1 p in
      let e4 = send 0x1F4 r.lba_mid s3 c3 (omega arith) (omega arith) e3.0 e3.1 p in
      let e5 = send 0x1F5 r.lba_hi s4 c4 (omega arith) (omega arith) e4.0 e4.1 p in (e5.0, e5.1)

  -- The drive before a command: the sector is selected, and its data is what it was.
  pub record Selected (fuel lba : ℕ) (s : State) : Type 0 where
    pub end : State
    pub ended : select_sector d fuel lba s ≡ some end
    pub ready : delay end ≡ 0
    pub selected : IsSelected (content end)
    pub registers : (content end).registers ≡ ide_select_sector lba
    pub data_kept : (content end).sectors ≡ (content s).sectors

  pub select_sector_lem :
      (fuel lba : ℕ) (s : State) → latency < fuel → (content s).phase ≡ idle → Selected fuel lba s
  unfolding select_sector
  select_sector_lem fuel lba s h p =
      let w = ide_wait_ready_lem d fuel s h in
      let q = ap (λ (c : Content). c.phase) w.same ∙ p in
      let (r, e) = send_registers_lem lba w.end w.ready q in
      let a = addressed-ide_select_sector lba in
      record {
        end = send_registers d lba w.end;
        ended = rw w.ended refl;
        ready = r;
        selected = record {
          waiting = ap (λ (c : Content). c.phase) e ∙ q;
          single = ap (λ (c : Content). c.seccount) e;
          lba_mode = ap (λ (c : Content). bit_and c.registers.drive_head 0xF0) e ∙ a.1;
        };
        registers = ap (λ (c : Content). c.registers) e;
        data_kept = ap (λ (c : Content). c.sectors) e ∙ ap (λ (c : Content). c.sectors) w.same;
      }
