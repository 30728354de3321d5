-- ===== src/Drivers/Ide/Transfer.antt =====
-- The transfers of drivers/ide.c between memory and the drive.
use pepin_os.Base.{
  ℕ, zero, suc, ◌+◌, ◌*◌, ◌/◌, ◌%◌, ◌^◌, true, ◌<◌, ◌≡◌, refl, sym, ap, ◌∙◌, arith, ◌==◌, some,
  if◌then◌else◌, for_range, update,
}
use pepin_os.Drivers.Ide.{
  Drive, ide_select_sector, addressed, addressed-ide_select_sector, ide_read_sector,
}
use pepin_os.Drivers.Ide.Port.{
  AtaDrive, Content, Phase, idle, data_in, is_idle, in_phase, ide_data, ide_command, read_words,
  read_sector,
}
use pepin_os.Drivers.Ide.Wait.{ide_wait_drq_lem}
use pepin_os.Drivers.Ide.Select.{Selected, select_sector_lem}

abbrev next_phase : ℕ → Phase
next_phase i = if i == 256 then idle else data_in i

-- `ptr[k] = w`, with the word of that number.
abbrev store_word : (ℕ → ℕ) → ℕ → ℕ → (ℕ → ℕ) → ℕ → ℕ
store_word w at k m = update (update m (at + 2 * k) (w k % 256)) (at + 2 * k + 1) (w k / 256 % 256)

abbrev named : Content → ℕ → ℕ
named c = c.sectors (addressed c.registers)

ide_read_sector-for_range :
    (drive : Drive) (lba at : ℕ) (buf : ℕ → ℕ)
    → ide_read_sector drive lba at buf
      ≡ for_range 256 0 (store_word (drive (addressed (ide_select_sector lba))) at) buf
unfolding ide_read_sector
ide_read_sector-for_range drive lba at buf = refl

module _ (d : AtaDrive) where
  open d use {State, inb, outb, inw, content, delay, latency, read_command, word_in, sound}

  read_words_lem :
      (n i at : ℕ) (buf : ℕ → ℕ) (s : State)
      → i + n ≡ 256
      → delay s ≡ 0
      → (content s).phase ≡ next_phase i
      → let (m, s') = read_words d n i at (buf, s) in
        (m ≡ for_range n i (store_word (named (content s)) at) buf)
        × (content s' ≡ in_phase idle (content s))
        × (delay s' ≡ 0)
  unfolding read_words
  read_words_lem zero i at buf s h r p =
      (refl, ap (λ q. in_phase q (content s)) (p ∙ ground (arith, h)), r)
  read_words_lem (suc n) i at buf s h r p =
      let w = word_in s i r (ground (arith, p)) in
      let (v, s') = inw ide_data s in
      let rest =
        read_words_lem n (suc i) at (store_word (λ _. v) at i buf) s' (omega (arith, h)) w.2
          (ap (λ (c : Content). c.phase) w.1 ∙ ground arith) in
      (
        rest.0
            ∙ ap (λ f. for_range n (suc i) (store_word f at) (store_word (λ _. v) at i buf))
                (ap named w.1)
            ∙ ap
                (λ x.
                  for_range n (suc i) (store_word (named (content s)) at)
                    (store_word (λ _. x) at i buf))
                w.0,
        rest.1 ∙ ap (in_phase idle) w.1,
        rest.2,
      )

  -- A call that read a sector: the buffer is the one of `ide_read_sector` on the drive's sectors, which
  -- are as they were, and the drive waits for a command.
  pub record SectorRead (fuel lba at : ℕ) (buf : ℕ → ℕ) (s : State) : Type 0 where
    pub end : State
    pub ended :
        read_sector d fuel lba at buf s ≡ some (ide_read_sector (content s).sectors lba at buf, end)
    pub waiting : (content end).phase ≡ idle
    pub sectors_kept : (content end).sectors ≡ (content s).sectors

  chosen :
      {fuel lba : ℕ} {s : State} (c : Selected d fuel lba s) {x : Content} {p : Phase}
      → x ≡ in_phase p (content c.end)
      → named x ≡ (content s).sectors (addressed (ide_select_sector lba))
  chosen {s = s} c e =
      ap named e
      ∙ ap (λ f. f (addressed (content c.end).registers)) c.data_kept
      ∙ ap (λ r. (content s).sectors (addressed r)) c.registers

  -- On a drive that waits for a command, with more fuel than its latency, and for a sector that the drive
  -- has and transfers without an error, the port-level read ends: the
  -- buffer is filled as the reader of sectors fills it, from the sectors of the drive, which keep
  -- their contents, and the drive waits for a command again.
  pub read_sector_lem :
      (fuel lba at : ℕ) (buf : ℕ → ℕ) (s : State)
      → latency < fuel
      → (content s).phase ≡ idle
      → sound (lba % 2 ^ 28) ≡ true
      → SectorRead fuel lba at buf s
  unfolding read_sector
  read_sector_lem fuel lba at buf s h p good =
      let c = select_sector_lem d fuel lba s h p in
      let place : addressed (content c.end).registers ≡ lba % 2 ^ 28 =
        ap addressed c.registers ∙ (addressed-ide_select_sector lba).0 in
      let cmd = read_command c.end c.ready c.selected (ap sound place ∙ good) in
      let w =
        ide_wait_drq_lem d fuel (outb ide_command 0x20 c.end) h
          (ap (λ (x : Content). is_idle x.phase) cmd) in
      let now = w.same ∙ cmd in
      let r = read_words_lem 256 0 at buf w.end refl w.ready (ap (λ (x : Content). x.phase) now) in
      record {
        end = (read_words d 256 0 at (buf, w.end)).1;
        ended =
            rw (c.ended, w.ended)
              (ap (λ m. some (m, (read_words d 256 0 at (buf, w.end)).1))
                (r.0
                  ∙ ap (λ f. for_range 256 0 (store_word f at) buf) (chosen c now)
                  ∙ sym (ide_read_sector-for_range (content s).sectors lba at buf)));
        waiting = ap (λ (x : Content). x.phase) r.1;
        sectors_kept =
            ap (λ (x : Content). x.sectors) r.1 ∙ ap (λ (x : Content). x.sectors) now ∙ c.data_kept;
      }
