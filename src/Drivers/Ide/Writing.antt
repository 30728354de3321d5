-- ===== src/Drivers/Ide/Writing.antt =====
-- The other direction of drivers/ide.c: a sector that is written, and what a later read finds.
use pepin_os.Base.{
  ℕ, zero, suc, ◌+◌, ◌*◌, ◌%◌, ◌^◌, ◌≤◌, ◌<◌, ◌≡◌, refl, ap, ◌∙◌, ◌⊎◌, inl, inr, arith, ◌==◌, true,
  false, Option, some, if◌then◌else◌, update, update_self, Bool-cases, ◌≢◌, ==_iff,
}
use pepin_os.Drivers.Ide.{addressed, addressed-ide_select_sector, sector_byte}
use pepin_os.Drivers.Ide.Port.{
  AtaDrive, TakesAtOnce, Content, idle, data_out, is_idle, in_phase, ide_data, ide_command,
  read_sector, write_words, ide_write_sector, take_word, ◌>>=◌,
}
use pepin_os.Drivers.Ide.Wait.{ide_wait_ready_lem, ide_wait_drq_lem}
use pepin_os.Drivers.Ide.Select.{select_sector_lem}

-- The word `i` of a buffer: `ptr[i]`.
abbrev word_at : (ℕ → ℕ) → ℕ → ℕ → ℕ
word_at buf at i = buf (at + 2 * i) + 2 ^ 8 * buf (at + 2 * i + 1)

stored_cell :
    (old kept : ℕ → ℕ → ℕ) (words : ℕ → ℕ) {v a b : ℕ} (sector k : ℕ)
    → a ≡ b
    → old ≡ kept
    → words k ≡ v
    → update old a words sector k ≡ (if b == sector then v else kept sector k)
stored_cell old kept words {a = a} {b = b} sector k ab ok wv = rw (ab, ok) (ground (arith, wv))

module _ (d : AtaDrive) where
  open d use {
    State, inb, outb, outw, content, delay, latency, write_command, flush_command, word_out, sound,
  }

  -- The sector that the registers name holds the words of the buffer, and the others what they held.
  record Stored (buf : ℕ → ℕ) (at : ℕ) (c : Content) (s : State) : Type 0 where
    ready : TakesAtOnce d → delay s ≡ 0
    waiting : (content s).phase ≡ idle
    words : ℕ → ℕ
    right : (k : ℕ) → k < 256 → words k ≡ word_at buf at k
    now : (content s).sectors ≡ update c.sectors (addressed c.registers) words

  right_next :
      (buf words : ℕ → ℕ) (at i : ℕ)
      → ((k : ℕ) → k < i → words k ≡ word_at buf at k)
      → (k : ℕ) → k < suc i
      → update words i (word_at buf at i) k ≡ word_at buf at k
  right_next buf words at i q k hk = elim (Bool-cases (i == k)) [
    | inl this ↦
        let same : i ≡ k = ground arith in rw (← same) (update_self words i (word_at buf at i))
    | inr older ↦ ground (arith, q k)
  ]

  taken :
      (i at : ℕ) (buf words : ℕ → ℕ) (c : Content) (s : State)
      → delay s ≡ 0
      → content s ≡ in_phase (data_out i words) c
      → let s' = outw ide_data (word_at buf at i) s in
        (TakesAtOnce d ⊎ (i ≢ 255) → delay s' ≡ 0)
        × (content s' ≡ take_word (word_at buf at i) i words c)
  taken i at buf words c s r e =
      let w = word_out s i (word_at buf at i) words r (ap (λ (x : Content). x.phase) e) in
      (
        λ q. elim q [
          | inl once ↦ elim (Bool-cases (i == 255)) [
            | inl last ↦ once.ready s (word_at buf at i) words r (
                ap (λ (x : Content). x.phase) e
                ∙ ap (λ k. data_out k words) ((==_iff i 255).0 last))
            | inr more ↦ w.1 (λ same. ground (arith, more, same))
          ]
          | inr more ↦ w.1 more
        ],
        w.0 ∙ ap (take_word (word_at buf at i) i words) e,
      )

  write_words_lem :
      (n i at : ℕ) (buf words : ℕ → ℕ) (c : Content) (s : State)
      → i + suc n ≡ 256
      → delay s ≡ 0
      → content s ≡ in_phase (data_out i words) c
      → ((k : ℕ) → k < i → words k ≡ word_at buf at k)
      → Stored buf at c (write_words d (suc n) i at buf s)
  unfolding write_words
  write_words_lem zero i at buf words c s h r e q =
      let t = taken i at buf words c s r e in
      let last : (i == 255) ≡ true = ground (arith, h) in
      record {
        ready = λ once. t.0 (inl once);
        waiting = ap (λ (x : Content). x.phase) t.1 ∙ rw last refl;
        words = update words i (word_at buf at i);
        right = λ k hk. right_next buf words at i q k (omega (arith, h, hk));
        now = ap (λ (x : Content). x.sectors) t.1 ∙ rw last refl;
      }
  write_words_lem (suc n) i at buf words c s h r e q =
      let t = taken i at buf words c s r e in
      let more : (i == 255) ≡ false = ground (arith, h) in
      write_words_lem n (suc i) at buf (update words i (word_at buf at i)) c
        (outw ide_data (word_at buf at i) s) (omega (arith, h)) (t.0 (inr (omega (arith, h))))
        (t.1 ∙ rw more refl) (right_next buf words at i q)

  -- A call that wrote a sector.
  pub record SectorWritten (fuel lba at : ℕ) (buf : ℕ → ℕ) (s : State) : Type 0 where
    pub end : State
    pub ended : ide_write_sector d fuel lba at buf s ≡ some end
    pub waiting : (content end).phase ≡ idle
    pub sectors_now :
        (sector k : ℕ)
        → k < 256
        → (content end).sectors sector k
          ≡ (if lba % 2 ^ 28 == sector then word_at buf at k else (content s).sectors sector k)

  pub ide_write_sector_lem :
      (fuel lba at : ℕ) (buf : ℕ → ℕ) (s : State)
      → latency < fuel
      → (content s).phase ≡ idle
      → sound (lba % 2 ^ 28) ≡ true
      → TakesAtOnce d
      → SectorWritten fuel lba at buf s
  unfolding ide_write_sector
  ide_write_sector_lem fuel lba at buf s h p good once =
      let c = select_sector_lem d fuel lba s h p in
      let place : addressed (content c.end).registers ≡ lba % 2 ^ 28 =
        ap addressed c.registers ∙ (addressed-ide_select_sector lba).0 in
      let cmd = write_command c.end c.ready c.selected (ap sound place ∙ good) in
      let w =
        ide_wait_drq_lem d fuel (outb ide_command 0x30 c.end) h
          (ap (λ (x : Content). is_idle x.phase) cmd) in
      let out =
        write_words_lem 255 0 at buf (λ _. 0) (content c.end) w.end refl w.ready (w.same ∙ cmd)
          (λ k hk. elim hk [ ]) in
      let f = flush_command (write_words d 256 0 at buf w.end) (out.ready once) out.waiting in
      let e =
        ide_wait_ready_lem d fuel (outb ide_command 0xE7 (write_words d 256 0 at buf w.end)) h in
      let now = e.same ∙ f in
      record {
        end = e.end;
        ended = rw (c.ended, w.ended) e.ended;
        waiting = ap (λ (x : Content). x.phase) now ∙ out.waiting;
        sectors_now = λ sector k hk.
            ap (λ (x : Content). x.sectors sector k) now
            ∙ ap (λ f. f sector k) out.now
            ∙ stored_cell (content c.end).sectors (content s).sectors out.words sector k place
                c.data_kept (out.right k hk);
      }

  unfoldable pub write_then_read :
      (fuel lba at : ℕ) (mem : ℕ → ℕ) (lba' to : ℕ) (buf : ℕ → ℕ) → State → Option ((ℕ → ℕ) × State)
  write_then_read fuel lba at mem lba' to buf s = do
    written ← ide_write_sector d fuel lba at mem s
    read_sector d fuel lba' to buf written

  -- A sector that was written and one that was read, in that order.
  pub record ReadBack (fuel lba at : ℕ) (mem : ℕ → ℕ) (lba' to : ℕ) (buf : ℕ → ℕ) (s : State)
      : Type 0 where
    pub end : State
    pub buf' : ℕ → ℕ
    pub ended : write_then_read fuel lba at mem lba' to buf s ≡ some (buf', end)
    pub bytes :
        (j : ℕ)
        → j < 512
        → buf' (to + j) ≡ (
            if lba % 2 ^ 28 == lba' % 2 ^ 28
            then mem (at + j)
            else sector_byte (content s).sectors lba' j)
    pub kept : (a : ℕ) → (a < to) ⊎ (to + 512 ≤ a) → buf' a ≡ buf a
    pub waiting : (content end).phase ≡ idle
