-- ===== src/Boot/Partition.antt =====
-- kernel/kernel.c: the search for the partition in the first sector. `stack` stands for what the local
-- array holds before it is read into.
mod Tests
use pepin_os.Base.{
  ℕ, zero, suc, ◌+◌, ◌-◌, ◌*◌, ◌/◌, ◌%◌, ◌^◌, ◌≤◌, ◌<◌, ◌≡◌, refl, sym, ap, ◌∙◌, ◌≢◌, ◌⊎◌, inl, inr,
  arith, ◌==◌, ltb, leb, min, max, bit_and, bit_or, Bool, true, false, not, ◌&&◌, ◌||◌, Option,
  none, some, List, [], ◌∷◌, ◌++◌, map, if◌then◌else◌, for_range, update, for_range-update,
  update_self, length, get_elem?, length-append, Bool-cases, Option-cases, u32_mod, add32, sub32,
  mul32, shl32, shl32-one, pow-lt-u32, ltb→lt, lt→ltb, ltb→le, ==_iff,
}
use mathlib.Core.Path.{subst}
use pepin_os.Base.Bits.Masks.{bit_or_comm, bit_or_field}
use pepin_os.Drivers.Ide.{Drive, ide_read_sector, sector_byte, ide_read_sector_lem}

-- Where an entry of the table begins.
abbrev pub entry_at : ℕ → ℕ
entry_at i = 0x1BE + i * 16

abbrev pub entry_lba : (ℕ → ℕ) → ℕ → ℕ
entry_lba mbr e =
    bit_or (bit_or (bit_or (mbr (e + 8)) (shl32 (mbr (e + 9)) 8)) (shl32 (mbr (e + 10)) 16))
      (shl32 (mbr (e + 11)) 24)

-- The loop, with `n` rounds left.
pub scan_entries : ℕ → ℕ → (ℕ → ℕ) → ℕ
scan_entries zero i mbr = 0
scan_entries (suc n) i mbr =
    let rest = scan_entries n (suc i) mbr in
    if mbr (entry_at i + 4) == 0x83 then entry_lba mbr (entry_at i) else rest

pub mbr_find_partition : Drive → (stack : ℕ → ℕ) → ℕ
mbr_find_partition drive stack =
    let mbr = ide_read_sector drive 0 0 stack in
    if not (mbr 510 == 0x55) || not (mbr 511 == 0xAA) then 0 else scan_entries 4 0 mbr

-- The entry `i` is one of Linux.
abbrev pub IsLinux : Drive → ℕ → Type 0
IsLinux drive i = sector_byte drive 0 (0x1BE + i * 16 + 4) ≡ 0x83

-- The sector ends with the signature.
abbrev pub IsSigned : Drive → Type 0
IsSigned drive = (sector_byte drive 0 510 ≡ 0x55) × (sector_byte drive 0 511 ≡ 0xAA)

joined : (k low high w : ℕ) → low < 2 ^ k → high * 2 ^ k ≡ w → bit_or low w ≡ high * 2 ^ k + low
joined k low high w h e =
    ap (bit_or low) (sym e) ∙ bit_or_comm low (high * 2 ^ k) ∙ bit_or_field k high low h

entry_lba_lem :
    (mbr : ℕ → ℕ) (e : ℕ)
    → mbr (e + 8) < 256
    → mbr (e + 9) < 256
    → mbr (e + 10) < 256
    → mbr (e + 11) < 256
    → entry_lba mbr e
      ≡ mbr (e + 8) + 256 * mbr (e + 9) + 65536 * mbr (e + 10) + 16777216 * mbr (e + 11)
entry_lba_lem mbr e h0 h1 h2 h3 =
    let b0 = mbr (e + 8) in
    let b1 = mbr (e + 9) in
    let b2 = mbr (e + 10) in
    let b3 = mbr (e + 11) in
    rw (joined 8 b0 b1 (shl32 b1 8) h0 (omega arith)) (
      rw (joined 16 (b1 * 2 ^ 8 + b0) b2 (shl32 b2 16) (omega arith) (omega arith)) (
        joined 24 (b2 * 2 ^ 16 + (b1 * 2 ^ 8 + b0)) b3 (shl32 b3 24) (omega arith) (omega arith)
        ∙ omega arith))

-- The little-endian word behind the type of an entry.
pub lba_of : Drive → ℕ → ℕ
lba_of drive i =
    let b = λ (k : ℕ). sector_byte drive 0 (0x1BE + i * 16 + k) in
    b 8 + 256 * b 9 + 65536 * b 10 + 16777216 * b 11

-- The result when the first entry of Linux is `i`, or there is none among the four.
pub data First (drive : Drive) : ℕ → ℕ → ℕ → Type 0 where
  found : {n i : ℕ} → IsLinux drive i → First drive (suc n) i (lba_of drive i)
  later : {n i r : ℕ} → ¬ IsLinux drive i → First drive n (suc i) r → First drive (suc n) i r
  missing : {i : ℕ} → First drive 0 i 0

-- The first sector in memory.
read_byte :
    (drive : Drive) (stack : ℕ → ℕ) (j : ℕ)
    → j < 512
    → ide_read_sector drive 0 0 stack j ≡ sector_byte drive 0 j
read_byte drive stack j h = ide_read_sector_lem drive 0 0 stack j ∙ ground arith

sector_byte-lt : (drive : Drive) (j : ℕ) → sector_byte drive 0 j < 256
sector_byte-lt drive j = ground arith

scan_entries-First :
    (drive : Drive) (stack : ℕ → ℕ) (n i : ℕ)
    → i + n ≤ 4
    → First drive n i (scan_entries n i (ide_read_sector drive 0 0 stack))
unfolding scan_entries lba_of
scan_entries-First drive stack zero i h = First.missing
scan_entries-First drive stack (suc n) i h =
    let e = entry_at i in
    let mbr = ide_read_sector drive 0 0 stack in
    let b = λ (k : ℕ) (s : k < 16). read_byte drive stack (e + k) (omega (arith, s, h)) in
    let byte : (k : ℕ) → k < 16 → mbr (e + k) < 256 =
      λ k s. omega (arith, b k s, sector_byte-lt drive (e + k)) in
    elim (Bool-cases (mbr (e + 4) == 0x83)) [
      | inl here ↦ rw here (
          subst (First drive (suc n) i)
            (sym (
              entry_lba_lem mbr e (byte 8 (omega arith)) (byte 9 (omega arith))
                (byte 10 (omega arith)) (byte 11 (omega arith))
              ∙ rw (b 8 (omega arith), b 9 (omega arith), b 10 (omega arith), b 11 (omega arith))
                  refl))
            (First.found (sym (b 4 (omega arith)) ∙ ground arith)))
      | inr other ↦ rw other (
          First.later (λ is. absurd (ground (arith, b 4 (omega arith) ∙ is, other)))
            (scan_entries-First drive stack n (suc i) (omega (arith, h))))
    ]

-- `mbr_find_partition` gives the first sector of the first entry of type 0x83 among the four of the
-- partition table, and 0 if there is none or the sector does not end with the signature.
pub mbr_find_partition_lem :
    (drive : Drive) (stack : ℕ → ℕ)
    → (IsSigned drive × First drive 4 0 (mbr_find_partition drive stack))
      ⊎ ((¬ IsSigned drive) × (mbr_find_partition drive stack ≡ 0))
unfolding mbr_find_partition
mbr_find_partition_lem drive stack =
    let mbr = ide_read_sector drive 0 0 stack in
    let b0 = read_byte drive stack 510 (omega arith) in
    let b1 = read_byte drive stack 511 (omega arith) in
    elim (Bool-cases (not (mbr 510 == 0x55) || not (mbr 511 == 0xAA))) [
      | inl bad ↦
          rw bad (inr (λ signed. absurd (ground (arith, b0 ∙ signed.0, b1 ∙ signed.1, bad)), refl))
      | inr good ↦ rw good (
          inl (
            (ground (arith, b0, good), ground (arith, b1, good)),
            scan_entries-First drive stack 4 0 (omega arith),
          ))
    ]
