-- ===== src/Drivers/Ide.antt =====
-- drivers/ide.c: reading a sector. The drive is a parameter: the word `i` of the sector that its
-- address registers name, as it comes from the data port once the drive is ready.
mod Port
mod Select
mod Transfer
mod Wait
mod Writing
mod Tests
use pepin_os.Base.{
  ℕ, zero, suc, ◌+◌, ◌-◌, ◌*◌, ◌/◌, ◌%◌, ◌^◌, ◌≤◌, ◌<◌, ◌≡◌, refl, sym, ap, ◌∙◌, ◌≢◌, ◌⊎◌, inl, inr,
  arith, ◌==◌, ltb, leb, min, max, bit_and, bit_or, Bool, true, false, not, ◌&&◌, ◌||◌, Option,
  none, some, List, [], ◌∷◌, ◌++◌, map, if◌then◌else◌, for_range, update, for_range-update,
  update_self, length, get_elem?, length-append, Bool-cases, Option-cases, u32_mod, add32, sub32,
  mul32, shl32, shl32-one, pow-lt-u32, ltb→lt, lt→ltb, ltb→le, ==_iff,
}
use pepin_os.Base.Bits.Masks.{bit_and_low, bit_and_shifted, bit_or_field}

-- The bytes that `ide_select_sector` sends to the ports 0x1F3 to 0x1F6.
pub record Registers : Type 0 where
  pub lba_lo : ℕ
  pub lba_mid : ℕ
  pub lba_hi : ℕ
  pub drive_head : ℕ

unfoldable pub ide_select_sector : ℕ → Registers
ide_select_sector lba = record {
  lba_lo = bit_and lba 0xFF;
  lba_mid = bit_and (lba / 2 ^ 8) 0xFF;
  lba_hi = bit_and (lba / 2 ^ 16) 0xFF;
  drive_head = bit_or 0xE0 (bit_and (lba / 2 ^ 24) 0x0F);
}

-- The sector that the registers name in LBA28 mode.
abbrev pub addressed : Registers → ℕ
addressed r = r.lba_lo + 2 ^ 8 * r.lba_mid + 2 ^ 16 * r.lba_hi + 2 ^ 24 * (r.drive_head % 16)

abbrev pub Drive : Type 0
Drive = ℕ → ℕ → ℕ

-- `ptr[i] = inw(IDE_DATA)`, for each of the 256 words, into the bytes from `at` on.
unfoldable pub ide_read_sector : Drive → ℕ → ℕ → (ℕ → ℕ) → ℕ → ℕ
ide_read_sector drive lba at buf =
    let sector = addressed (ide_select_sector lba) in
    for_range 256 0
      (λ i m.
        update (update m (at + 2 * i) (drive sector i % 256)) (at + 2 * i + 1)
          (drive sector i / 256 % 256))
      buf

select_fields :
    (lba : ℕ)
    → let r = ide_select_sector lba in
      (r.lba_lo ≡ lba % 256)
      × (r.lba_mid ≡ lba / 256 % 256)
      × (r.lba_hi ≡ lba / 65536 % 256)
      × (r.drive_head ≡ 224 + lba / 16777216 % 16)
unfolding ide_select_sector
select_fields lba = (
  bit_and_low 8 lba,
  bit_and_low 8 (lba / 256),
  bit_and_low 8 (lba / 65536),
  ap (bit_or 224) (bit_and_low 4 (lba / 16777216))
      ∙ bit_or_field 4 14 (lba / 16777216 % 16) (omega arith),
)

-- `ide_select_sector` names the sector by its low 28 bits, in LBA mode on drive 0.
pub addressed-ide_select_sector :
    (lba : ℕ)
    → (addressed (ide_select_sector lba) ≡ lba % 2 ^ 28)
      × (bit_and (ide_select_sector lba).drive_head 0xF0 ≡ 0xE0)
addressed-ide_select_sector lba =
    let f = select_fields lba in
    (
      omega (arith, f),
      ap (λ h. bit_and h 0xF0) f.3
          ∙ bit_and_shifted 4 (224 + lba / 16777216 % 16) 15
          ∙ omega (arith, bit_and_low 4 ((224 + lba / 16777216 % 16) / 16)),
    )

-- The bytes of a sector, in the order in which they stand in memory.
abbrev pub sector_byte : Drive → ℕ → ℕ → ℕ
sector_byte drive lba j =
    if j % 2 == 0
    then drive (lba % 2 ^ 28) (j / 2) % 256
    else drive (lba % 2 ^ 28) (j / 2) / 256 % 256

-- `w` as the bytes of 16-bit words.
abbrev word_byte : (ℕ → ℕ) → ℕ → ℕ
word_byte w j = if j % 2 == 0 then w (j / 2) % 256 else w (j / 2) / 256 % 256

store_words :
    (n i at : ℕ) (w buf : ℕ → ℕ) (a : ℕ)
    → for_range n i
        (λ k m. update (update m (at + 2 * k) (w k % 256)) (at + 2 * k + 1) (w k / 256 % 256))
        buf
        a
      ≡ (if leb (at + 2 * i) a && ltb a (at + 2 * (i + n)) then word_byte w (a - at) else buf a)
store_words zero i at w buf a = ground arith
store_words (suc n) i at w buf a = ground (
  arith,
  store_words n (suc i) at w
      (update (update buf (at + 2 * i) (w i % 256)) (at + 2 * i + 1) (w i / 256 % 256)) a,
)

-- `ide_read_sector` fills 512 bytes of the buffer with the bytes of the sector that the low 28
-- bits of the address name, and leaves the others.
pub ide_read_sector_lem :
    (drive : Drive) (lba at : ℕ) (buf : ℕ → ℕ) (a : ℕ)
    → ide_read_sector drive lba at buf a
      ≡ (if leb at a && ltb a (at + 512) then sector_byte drive lba (a - at) else buf a)
unfolding ide_read_sector
ide_read_sector_lem drive lba at buf a =
    store_words 256 0 at (drive (addressed (ide_select_sector lba))) buf a
    ∙ ap (λ s. if leb (at + 0) a && ltb a (at + 512) then word_byte (drive s) (a - at) else buf a)
        (addressed-ide_select_sector lba).0
    ∙ ground arith
