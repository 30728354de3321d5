-- ===== src/Drivers/Ide/Port.antt =====
-- drivers/ide.c with its ports: the loops that wait, the registers, and the transfer of a sector in
-- both directions. The drive behind the ports is a parameter, with what the ATA standard says of a
-- drive for single sectors in LBA28 mode. The waiting loops have fuel, which counts the reads of the
-- status register.
use pepin_os.Base.{
  ◌≢◌, ℕ, zero, suc, ◌+◌, ◌-◌, ◌*◌, ◌/◌, ◌%◌, ◌^◌, ◌≤◌, ◌≡◌, ◌==◌, bit_and, Bool, true, false, not,
  ◌||◌, Option, none, some, if◌then◌else◌, update,
}
use pepin_os.Drivers.Ide.{Registers, ide_select_sector, addressed}

infixl 5 ◌>>=◌
abbrev pub ◌>>=◌ {ℓ κ} : {A : Type ℓ} {B : Type κ} → Option A → (A → Option B) → Option B
none >>= f = none
some a >>= f = f a

abbrev pub ide_data : ℕ
ide_data = 0x1F0

abbrev pub ide_status : ℕ
ide_status = 0x1F7

abbrev pub ide_command : ℕ
ide_command = 0x1F7

-- What the drive waits for: a command, or the words of a sector from the number on. `data_out` holds
-- the words that it has taken so far.
pub data Phase : Type 0 where
  idle : Phase
  data_in : ℕ → Phase
  data_out : ℕ → (ℕ → ℕ) → Phase

pub record Content : Type 0 where
  pub seccount : ℕ
  pub registers : Registers
  pub phase : Phase
  pub sectors : ℕ → ℕ → ℕ

abbrev pub is_idle : Phase → Bool
is_idle idle = true
is_idle (data_in k) = false
is_idle (data_out k w) = false

abbrev pub in_phase : Phase → Content → Content
in_phase p c = record c { phase = p }

-- A byte that is written to one of the ports 0x1F2 to 0x1F6.
abbrev pub write_register : ℕ → ℕ → Content → Content
write_register port v c =
    let r = c.registers in
    record c {
      seccount = if port == 0x1F2 then v else c.seccount;
      registers = record {
        lba_lo = if port == 0x1F3 then v else r.lba_lo;
        lba_mid = if port == 0x1F4 then v else r.lba_mid;
        lba_hi = if port == 0x1F5 then v else r.lba_hi;
        drive_head = if port == 0x1F6 then v else r.drive_head;
      };
    }

-- The next word of the host's data: the last one stores the sector.
abbrev pub take_word : ℕ → ℕ → (ℕ → ℕ) → Content → Content
take_word v k words c =
    let words' = update words k v in
    record c {
      phase = if k == 255 then idle else data_out (suc k) words';
      sectors = if k == 255 then update c.sectors (addressed c.registers) words' else c.sectors;
    }

-- The command register may be written: one sector, in LBA mode, of drive 0.
pub record IsSelected (c : Content) : Type 0 where
  pub waiting : c.phase ≡ idle
  pub single : c.seccount ≡ 1
  pub lba_mode : bit_and c.registers.drive_head 0xF0 ≡ 0xE0

-- The instructions `inb`, `outb`, `inw` and `outw` on the drive. `delay` is the number of times that
-- the status register still shows BSY. `sound` tells the sectors that the drive has and transfers
-- without an error; nothing is said of a command for another one, nor of a command to a busy drive.
pub record AtaDrive : Type 1 where
  pub State : Type 0
  pub inb : ℕ → State → ℕ × State
  pub outb : ℕ → ℕ → State → State
  pub inw : ℕ → State → ℕ × State
  pub outw : ℕ → ℕ → State → State
  pub content : State → Content
  pub delay : State → ℕ
  pub latency : ℕ
  pub sound : ℕ → Bool
  pub delay_bound : (s : State) → delay s ≤ latency
  -- Reading the status changes nothing but the time.
  pub status_content : (s : State) → content (inb ide_status s).1 ≡ content s
  pub status_delay : (s : State) → delay (inb ide_status s).1 ≡ delay s - 1
  pub status_busy : (s : State) → (bit_and (inb ide_status s).0 0x80 == 0) ≡ (delay s == 0)
  pub status_drq :
      (s : State)
      → delay s ≡ 0
      → (bit_and (inb ide_status s).0 0x08 == 0) ≡ is_idle (content s).phase
  -- A drive that is not busy and has no data to transfer takes the registers.
  pub register_content :
      (port v : ℕ) (s : State)
      → delay s ≡ 0
      → (content s).phase ≡ idle
      → 0x1F2 ≤ port
      → port ≤ 0x1F6
      → content (outb port v s) ≡ write_register port v (content s)
  pub register_delay :
      (port v : ℕ) (s : State)
      → delay s ≡ 0
      → (content s).phase ≡ idle
      → 0x1F2 ≤ port
      → port ≤ 0x1F6
      → delay (outb port v s) ≡ 0
  -- READ SECTORS, WRITE SECTORS and FLUSH CACHE.
  pub read_command :
      (s : State)
      → delay s ≡ 0
      → IsSelected (content s)
      → sound (addressed (content s).registers) ≡ true
      → content (outb ide_command 0x20 s) ≡ in_phase (data_in 0) (content s)
  pub write_command :
      (s : State)
      → delay s ≡ 0
      → IsSelected (content s)
      → sound (addressed (content s).registers) ≡ true
      → content (outb ide_command 0x30 s) ≡ in_phase (data_out 0 (λ _. 0)) (content s)
  pub flush_command :
      (s : State)
      → delay s ≡ 0
      → (content s).phase ≡ idle
      → content (outb ide_command 0xE7 s) ≡ content s
  -- The words of a sector, once the drive is ready. After the last word that is written it may be busy.
  pub word_in :
      (s : State) (k : ℕ)
      → delay s ≡ 0
      → (content s).phase ≡ data_in k
      → let c = content s in
        ((inw ide_data s).0 ≡ c.sectors (addressed c.registers) k)
        × (content (inw ide_data s).1 ≡ in_phase (if k == 255 then idle else data_in (suc k)) c)
        × (delay (inw ide_data s).1 ≡ 0)
  pub word_out :
      (s : State) (k v : ℕ) (words : ℕ → ℕ)
      → delay s ≡ 0
      → (content s).phase ≡ data_out k words
      → (content (outw ide_data v s) ≡ take_word v k words (content s))
        × (k ≢ 255 → delay (outw ide_data v s) ≡ 0)

-- A drive, as one with a cache may be, that is not busy when it has taken the last word of a sector.
-- The standard does not ask for it, but `ide_write_sector` sends the next command without waiting.
pub record TakesAtOnce (d : AtaDrive) : Type 0 where
  pub ready :
      (s : d.State) (v : ℕ) (words : ℕ → ℕ)
      → d.delay s ≡ 0
      → (d.content s).phase ≡ data_out 255 words
      → d.delay (d.outw ide_data v s) ≡ 0

module _ (d : AtaDrive) where
  open d use {State, inb, outb, inw, outw}

  -- `while (inb(IDE_STATUS) & IDE_SR_BSY);`
  unfoldable pub ide_wait_ready : ℕ → State → Option State
  ide_wait_ready zero s = none
  ide_wait_ready (suc fuel) s =
      let (st, s') = inb ide_status s in
      let rest = ide_wait_ready fuel s' in if bit_and st 0x80 == 0 then some s' else rest

  unfoldable pub ide_wait_drq : ℕ → State → Option State
  ide_wait_drq zero s = none
  ide_wait_drq (suc fuel) s =
      let (st, s') = inb ide_status s in
      let rest = ide_wait_drq fuel s' in
      if not (bit_and st 0x80 == 0) || (bit_and st 0x08 == 0) then rest else some s'

  -- The bytes of `ide_select_sector`, in the order in which they are sent.
  unfoldable pub send_registers : ℕ → State → State
  send_registers lba s =
      let r = ide_select_sector lba in
      outb 0x1F5 r.lba_hi
        (outb 0x1F4 r.lba_mid (outb 0x1F3 r.lba_lo (outb 0x1F2 1 (outb 0x1F6 r.drive_head s))))

  unfoldable pub select_sector : ℕ → ℕ → State → Option State
  select_sector fuel lba s = do s' ← ide_wait_ready fuel s; some (send_registers lba s')

  -- `ptr[i] = inw(IDE_DATA)` for `n` words from `i` on, into the bytes from `at` on.
  unfoldable pub read_words : ℕ → ℕ → ℕ → (ℕ → ℕ) × State → (ℕ → ℕ) × State
  read_words zero i at (buf, s) = (buf, s)
  read_words (suc n) i at (buf, s) =
      let (w, s') = inw ide_data s in
      read_words n (suc i) at
        (update (update buf (at + 2 * i) (w % 256)) (at + 2 * i + 1) (w / 256 % 256), s')

  unfoldable pub read_sector : ℕ → ℕ → ℕ → (ℕ → ℕ) → State → Option ((ℕ → ℕ) × State)
  read_sector fuel lba at buf s = do
    selected ← select_sector fuel lba s
    ready ← ide_wait_drq fuel (outb ide_command 0x20 selected)
    some (read_words 256 0 at (buf, ready))

  -- `outw(IDE_DATA, ptr[i])` for `n` words from `i` on.
  unfoldable pub write_words : ℕ → ℕ → ℕ → (ℕ → ℕ) → State → State
  write_words zero i at buf s = s
  write_words (suc n) i at buf s =
      write_words n (suc i) at buf
        (outw ide_data (buf (at + 2 * i) + 2 ^ 8 * buf (at + 2 * i + 1)) s)

  unfoldable pub ide_write_sector : ℕ → ℕ → ℕ → (ℕ → ℕ) → State → Option State
  ide_write_sector fuel lba at buf s = do
    selected ← select_sector fuel lba s
    ready ← ide_wait_drq fuel (outb ide_command 0x30 selected)
    ide_wait_ready fuel (outb ide_command 0xE7 (write_words 256 0 at buf ready))
