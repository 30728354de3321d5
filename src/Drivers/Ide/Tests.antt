-- ===== src/Drivers/Ide/Tests.antt =====
-- A drive whose sectors begin with their number.
use pepin_os.Base.{
  ltb, ℕ, suc, ◌-◌, ◌≤◌, ◌≡◌, refl, arith, ◌==◌, bit_and, Bool, true, false, if◌then◌else◌,
}
use pepin_os.Drivers.Ide.{Drive, addressed}
use pepin_os.Drivers.Ide.Port.{
  AtaDrive, Content, Phase, idle, data_in, data_out, is_idle, in_phase, write_register, take_word,
  ide_command,
}
use pepin_os.Drivers.Ide.Transfer.{SectorRead, read_sector_lem}

abbrev numbered : Drive
numbered sector word = if word == 0 then sector else 0x55AA

-- A drive that is busy for one read of the status after each command.
record Simple : Type 0 where
  now : Content
  busy : Bool

abbrev simple_status : Bool → Phase → ℕ
simple_status busy phase = if busy then 0x80 else if is_idle phase then 0x40 else 0x48

abbrev wait : Bool → ℕ
wait busy = if busy then 1 else 0

wait_bound : (b : Bool) → wait b ≤ 1
wait_bound b = ground arith

waited : (b : Bool) → 0 ≡ wait b - 1
waited b = ground arith

not_command : (port : ℕ) → port ≤ 0x1F6 → (port == ide_command) ≡ false
not_command port h = ground arith

shows_busy : (b : Bool) (p : Phase) → (bit_and (simple_status b p) 0x80 == 0) ≡ (wait b == 0)
shows_busy true p = refl
shows_busy false idle = refl
shows_busy false (data_in k) = refl
shows_busy false (data_out k w) = refl

shows_drq :
    (b : Bool) (p : Phase) → wait b ≡ 0 → (bit_and (simple_status b p) 0x08 == 0) ≡ is_idle p
shows_drq true p h = let no : 1 ≤ 0 = omega (arith, h) in elim no [ ]
shows_drq false idle h = refl
shows_drq false (data_in k) h = refl
shows_drq false (data_out k w) h = refl

abbrev simple_command : ℕ → Simple → Simple
simple_command v s = record {
  now =
      if v == 0x20
      then in_phase (data_in 0) s.now
      else if v == 0x30
      then in_phase (data_out 0 (λ _. 0)) s.now
      else s.now;
  busy = true;
}

abbrev simple_in : Phase → Simple → ℕ × Simple
simple_in idle s = (0xFFFF, s)
simple_in (data_out k w) s = (0xFFFF, s)
simple_in (data_in k) s = (
  s.now.sectors (addressed s.now.registers) k,
  record s { now = in_phase (if k == 255 then idle else data_in (suc k)) s.now },
)

abbrev simple_out : Phase → ℕ → Simple → Simple
simple_out idle v s = s
simple_out (data_in k) v s = s
simple_out (data_out k w) v s = record s { now = take_word v k w s.now }

abbrev simple : AtaDrive
simple = record {
  State = Simple;
  inb = λ port s. (simple_status s.busy s.now.phase, record s { busy = false });
  outb = λ port v s.
      if port == ide_command
      then simple_command v s
      else record s { now = write_register port v s.now };
  inw = λ port s. simple_in s.now.phase s;
  outw = λ port v s. simple_out s.now.phase v s;
  content = λ s. s.now;
  delay = λ s. wait s.busy;
  latency = 1;
  sound = λ sector. ltb sector 1000;
  delay_bound = λ s. wait_bound s.busy;
  status_content = λ s. refl;
  status_delay = λ s. waited s.busy;
  status_busy = λ s. shows_busy s.busy s.now.phase;
  status_drq = λ s ready. shows_drq s.busy s.now.phase ready;
  register_content = λ port v s ready waiting lo hi. rw (not_command port hi) refl;
  register_delay = λ port v s ready waiting lo hi. rw (not_command port hi) ready;
  read_command = λ s ready selected good. refl;
  write_command = λ s ready selected good. refl;
  flush_command = λ s ready waiting. refl;
  word_in = λ s k ready p. rw p (refl, refl, ready);
  word_out = λ s k v words ready p. rw p (refl, λ more. ready);
}

-- Its sector 7 holds 0x55AA in each word, and it is busy when the first command comes.
abbrev fresh : Simple
fresh = record {
  now = record {
    seccount = 0;
    registers = record { lba_lo = 0; lba_mid = 0; lba_hi = 0; drive_head = 0 };
    phase = idle;
    sectors = numbered;
  };
  busy = true;
}

read_sector_lem_example : SectorRead simple 2 7 100 (λ _. 0) fresh
read_sector_lem_example = read_sector_lem simple 2 7 100 (λ _. 0) fresh (omega arith) refl refl
